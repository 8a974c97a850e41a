-- ===== src/Callcenter/Cluster/Failover.antt =====
-- `ServeRPC` of lib/callcenter/cluster.go against one walk over a flat list of remotes.
use mathlib.Core.List.{Perm}
use mathlib.Core.List.Perm
use native.Mathlib.Nat.{mod-lt}
use venn.Prelude.{
  ℕ, zero, suc, ◌%◌, ◌<◌, ◌≡◌, refl, sym, ◌∙◌, Bool, ◌&&◌, none, some, List, [], ◌∷◌, ◌++◌, arith,
  length, get_elem?, Option-cases, inl, inr, ◌==◌,
}
use venn.Rpc.{Request, Reply, Handler, fresh, intercept}
use venn.Callcenter.Cluster.{
  Priority, Cluster, verdict, Progress, done, going, is_empty, start, try_group, try_priorities,
  serve, Outcome, after_group,
}
use venn.Callcenter.Cluster.Order.{visited, visited_one, visited-perm, get_elem?-lt}

-- Every priority has a remote. `Add` makes no other.
abbrev pub AllInhabited {ℓ} : {R : Type ℓ} → List (Priority R) → Type 0
AllInhabited [] = Unit
AllInhabited (p ∷ ps) = (0 < length p.remotes) × AllInhabited ps

-- The remotes in the order in which one request tries them.
abbrev pub attempts {ℓ} : {R : Type ℓ} → List (Priority R) → List R
attempts [] = []
attempts (p ∷ ps) = visited p.remotes (length p.remotes) (start p) ++ attempts ps

-- The remotes of all priorities, in the order of the slices.
abbrev pub all_remotes {ℓ} : {R : Type ℓ} → List (Priority R) → List R
all_remotes [] = []
all_remotes (p ∷ ps) = p.remotes ++ all_remotes ps

-- Wherever the round-robin counters stand, the attempts of one request are the remotes of all
-- priorities in another order: none is left out, and none is tried twice.
pub attempts-perm {ℓ} : {R : Type ℓ} (ps : List (Priority R)) → Perm (attempts ps) (all_remotes ps)
attempts-perm [] = Perm.refl []
attempts-perm (p ∷ ps) = Perm.append (visited-perm p.remotes (start p)) (attempts-perm ps)

-- The index of a slice is in range.
in_range {ℓ} :
    {R : Type ℓ} (rs : List R) (j : ℕ)
    → 0 < length rs
    → (x : R) × (get_elem? rs (suc j % length rs) ≡ some x)
in_range rs j h =
    let (x, got, _) = get_elem?-lt rs (suc j % length rs) (mod-lt (suc j) h) in (x, got)

-- The flag of the inner loop says whether the flat list ends here.
is_empty-visited {ℓ} :
    {R : Type ℓ} (rs rest : List R) (m j : ℕ)
    → 0 < length rs
    → is_empty (visited rs m j ++ rest) ≡ (is_empty rest && m == 0)
unfolding visited
is_empty-visited rs [] zero j h = refl
is_empty-visited rs (y ∷ rest) zero j h = refl
is_empty-visited rs rest (suc m) j h =
    let (x, got) = in_range rs j h in rw (got, visited) (ground arith)

is_empty-attempts {ℓ} :
    {R : Type ℓ} (ps : List (Priority R)) → AllInhabited ps → is_empty (attempts ps) ≡ is_empty ps
unfolding visited
is_empty-attempts [] h = refl
is_empty-attempts (p ∷ ps) h =
    ground (arith, is_empty-visited p.remotes (attempts ps) (length p.remotes) (start p) h.0)

module _ {ℓ κ} {R : Type ℓ} {S : Type κ} (call : R → Handler S) (r : Request) where
  -- The specification: walk the list, and stop at the first reply that decides. Only the last
  -- remote's error decides, unless it is a user error.
  unfoldable pub walk : List R → Reply → S → List Reply × S
  walk [] icept s = ([], s)
  walk (x ∷ xs) icept s =
      let (sends, s') = call x r s in
      let icept' = intercept icept sends in
      elim (verdict (is_empty xs) icept') [
        | some reply ↦ (reply ∷ [], s')
        | none ↦ walk xs icept' s'
      ]

  -- The walk from where the inner loop has stopped.
  abbrev resume : List R → Progress S → List Reply × S
  resume rest (done reply s) = (reply ∷ [], s)
  resume rest (going icept s) = walk rest icept s

  module _ (x : R) (xs : List R) (icept : Reply) (s : S) {b : Bool} (e : is_empty xs ≡ b) where
    walk_on :
        verdict b (intercept icept (call x r s).0) ≡ none
        → walk (x ∷ xs) icept s ≡ walk xs (intercept icept (call x r s).0) (call x r s).1
    unfolding walk
    walk_on h = rw (e, walk, h) refl

    walk_stops :
        {reply : Reply}
        → verdict b (intercept icept (call x r s).0) ≡ some reply
        → walk (x ∷ xs) icept s ≡ (reply ∷ [], (call x r s).1)
    unfolding walk
    walk_stops h = rw (e, walk, h) refl

  group-walk :
      (rs rest : List R) (m j : ℕ) (icept : Reply) (s : S)
      → 0 < length rs
      → resume rest (try_group call r (is_empty rest) rs m j icept s)
        ≡ walk (visited rs m j ++ rest) icept s
  unfolding try_group visited
  group-walk rs rest zero j icept s h = refl
  group-walk rs rest (suc m) j icept s h =
      let (x, got) = in_range rs j h in
      let more = visited rs m (suc j) ++ rest in
      let e = is_empty-visited rs rest m (suc j) h in
      let tail = group-walk rs rest m (suc j) (intercept icept (call x r s).0) (call x r s).1 h in
      rw (got, try_group, visited_one rs m j _ x refl got)
        (elim (Option-cases (verdict (is_empty rest && m == 0) (intercept icept (call x r s).0))) [
          | inl on ↦ rw (on, resume) (tail ∙ sym (walk_on x more icept s e on))
          | inr (reply, stop) ↦ rw (stop, resume) (sym (walk_stops x more icept s e stop))
        ])

  -- The replies and the remotes' state that the outer loop leaves.
  abbrev visible : Outcome call r → List Reply × S
  visible t = (t.0, t.2)

  after_group-resume :
      (p : Priority R) (ps : List (Priority R)) (rest : Reply → S → Outcome call r) (xs : List R)
      → ((icept : Reply) (s : S) → visible (rest icept s) ≡ walk xs icept s)
      → (g : Progress S) → visible (after_group call r p ps rest g) ≡ resume xs g
  after_group-resume p ps rest xs h (done reply s) = refl
  after_group-resume p ps rest xs h (going icept s) = h icept s

  priorities-walk :
      (ps : List (Priority R)) (icept : Reply) (s : S)
      → AllInhabited ps
      → visible (try_priorities call r ps icept s) ≡ walk (attempts ps) icept s
  unfolding try_priorities walk
  priorities-walk [] icept s h = refl
  priorities-walk (p ∷ ps) icept s h =
      after_group-resume p ps (try_priorities call r ps) (attempts ps)
        (λ icept' s'. priorities-walk ps icept' s' h.1) _
      ∙ rw (← is_empty-attempts ps h.1)
          (group-walk p.remotes (attempts ps) (length p.remotes) (start p) icept s h.0)

  -- If every priority has a remote, a request is answered as one walk over the flat list of
  -- attempts answers it: by the first reply with a result or a user error, else by the last
  -- remote's error (with a stale head its result, and no error), else not at all. The state of the
  -- remotes is that of the same walk, so no remote is called beyond the deciding one.
  pub serve-walk :
      (c : Cluster R) (s : S)
      → AllInhabited c.priorities
      → ((serve call r (c, s)).0, (serve call r (c, s)).1.1) ≡ walk (attempts c.priorities) fresh s
  unfolding serve
  serve-walk c s h = priorities-walk c.priorities fresh s h
