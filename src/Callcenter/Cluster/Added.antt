-- ===== src/Callcenter/Cluster/Added.antt =====
-- `Add` of lib/callcenter/cluster.go: the groups that a list of additions leaves.
use venn.Prelude.{
  ◌≡◌, refl, ◌∙◌, true, List, [], ◌∷◌, ◌++◌, arith, if◌then◌else◌, length-append, Bool-cases, inl,
  inr,
}
use mathlib.Core.List.{append_assoc, append-nil}
use venn.Prelude.Int.{ℤ, eqb_ℤ, ltb_ℤ}
use venn.Callcenter.Cluster.{Priority, Cluster, new_cluster, insert_group, add}
use venn.Callcenter.Cluster.Failover.{AllInhabited}

module _ {R : Type 0} where
  -- The priorities ascend strictly.
  abbrev pub Above : ℤ → List (Priority R) → Type 0
  Above p [] = Unit
  Above p (g ∷ gs) = (ltb_ℤ p g.priority ≡ true) × Above p gs

  abbrev pub IsAscending : List (Priority R) → Type 0
  IsAscending [] = Unit
  IsAscending (g ∷ gs) = Above g.priority gs × IsAscending gs

  -- The remotes of one priority, in the order of the rotation.
  unfoldable pub group : ℤ → List (Priority R) → List R
  group q [] = []
  group q (g ∷ gs) = if eqb_ℤ g.priority q then g.remotes else group q gs

  Above-insert_group :
      (q p : ℤ) (r : R) (gs : List (Priority R))
      → ltb_ℤ q p ≡ true
      → Above q gs
      → Above q (insert_group p r gs)
  unfolding insert_group
  Above-insert_group q p r [] l h = (l, tt)
  Above-insert_group q p r (g ∷ gs) l h = ground (arith, Above-insert_group q p r gs l h.1)

  Above-trans : (q p : ℤ) (gs : List (Priority R)) → ltb_ℤ q p ≡ true → Above p gs → Above q gs
  Above-trans q p [] l h = tt
  Above-trans q p (g ∷ gs) l h = (ground arith, Above-trans q p gs l h.1)

  IsAscending-insert_group :
      (p : ℤ) (r : R) (gs : List (Priority R)) → IsAscending gs → IsAscending (insert_group p r gs)
  unfolding insert_group
  IsAscending-insert_group p r [] h = (tt, tt)
  IsAscending-insert_group p r (g ∷ gs) h = ground (
    arith,
    IsAscending-insert_group p r gs h.1,
    Above-insert_group g.priority p r gs,
    Above-trans p g.priority gs,
  )

  pub AllInhabited-insert_group :
      (p : ℤ) (r : R) (gs : List (Priority R))
      → AllInhabited gs
      → AllInhabited (insert_group p r gs)
  unfolding insert_group
  AllInhabited-insert_group p r [] h = (omega arith, tt)
  AllInhabited-insert_group p r (g ∷ gs) h =
      ground (arith, AllInhabited-insert_group p r gs h.1, length-append g.remotes (r ∷ []))

  -- No group of a priority stands behind a larger one.
  group-Above : (q : ℤ) (gs : List (Priority R)) → Above q gs → group q gs ≡ []
  unfolding group
  group-Above q [] h = refl
  group-Above q (g ∷ gs) h = ground (arith, group-Above q gs h.1)

  group-insert_group :
      (q p : ℤ) (r : R) (gs : List (Priority R))
      → IsAscending gs
      → group q (insert_group p r gs) ≡ (if eqb_ℤ p q then group q gs ++ r ∷ [] else group q gs)
  unfolding group insert_group
  group-insert_group q p r [] h = ground arith
  group-insert_group q p r (g ∷ gs) h =
      ground (arith, group-insert_group q p r gs h.1, group-Above q gs, Above-trans q g.priority gs)

  -- A list of calls of `Add`, in order.
  unfoldable pub add_all : List (ℤ × R) → Cluster R → Cluster R
  add_all [] c = c
  add_all ((p, r) ∷ xs) c = add_all xs (add p r c)

  -- The remotes that a list of calls gives to one priority.
  unfoldable pub given : ℤ → List (ℤ × R) → List R
  given q [] = []
  given q ((p, r) ∷ xs) = let rest = given q xs in if eqb_ℤ p q then r ∷ rest else rest

  add_all_keeps :
      (xs : List (ℤ × R)) (c : Cluster R)
      → IsAscending c.priorities × AllInhabited c.priorities
      → IsAscending (add_all xs c).priorities × AllInhabited (add_all xs c).priorities
  unfolding add_all add
  add_all_keeps [] c h = h
  add_all_keeps ((p, r) ∷ xs) c h = add_all_keeps xs (add p r c) (
    IsAscending-insert_group p r c.priorities h.0,
    AllInhabited-insert_group p r c.priorities h.1,
  )

  priorities-add :
      (p : ℤ) (r : R) (c : Cluster R) → (add p r c).priorities ≡ insert_group p r c.priorities
  unfolding add
  priorities-add p r c = refl

  group-add_all :
      (q : ℤ) (xs : List (ℤ × R)) (c : Cluster R)
      → IsAscending c.priorities
      → group q (add_all xs c).priorities ≡ group q c.priorities ++ given q xs
  unfolding add_all given
  group-add_all q [] c h = rw append-nil
  group-add_all q ((p, r) ∷ xs) c h =
      group-add_all q xs (add p r c)
        (rw priorities-add (IsAscending-insert_group p r c.priorities h))
      ∙ rw (priorities-add, group-insert_group q p r c.priorities h)
          (elim (Bool-cases (eqb_ℤ p q)) [
            | inl same ↦ rw same (append_assoc (group q c.priorities) (r ∷ []) (given q xs))
            | inr other ↦ rw other refl
          ])

  -- After any calls of `Add` on a new cluster the priorities ascend strictly, each has a remote, and
  -- the remotes of a priority are those added with it, in the order of the calls.
  pub add_all_lem :
      (xs : List (ℤ × R)) (q : ℤ)
      → IsAscending (add_all xs new_cluster).priorities
        × AllInhabited (add_all xs new_cluster).priorities
        × (group q (add_all xs new_cluster).priorities ≡ given q xs)
  unfolding new_cluster group
  add_all_lem xs q =
      let (ascending, inhabited) = add_all_keeps xs new_cluster (tt, tt) in
      (ascending, inhabited, group-add_all q xs new_cluster tt)
