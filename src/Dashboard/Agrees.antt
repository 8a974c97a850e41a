-- ===== src/Dashboard/Agrees.antt =====
-- The numbers that dashboard/handler.go shows of a chain, once the health of its remotes is known.
use venn.Prelude.{
  ℕ, suc, ◌≡◌, refl, sym, ap, ◌∙◌, inl, inr, String, Bool, true, some, List, [], ◌∷◌, ltb, length,
  arith, if◌then◌else◌, Bool-cases, false,
}
use venn.Prelude.Order.{Ordered, count, IsSorted, sort-IsSorted, count-sort, length-sort}
use venn.Rpc.{Result}
use venn.Callcenter.Doctor.{healthy, unhealthy}
use venn.Config.{Remote, Chain}
use venn.Dashboard.{
  find_remote, is_healthy, or_zero, info_of, remote_ordered, read_remotes, get_remote_infos,
  any_usable, get_chain_status, chain_info,
}

-- Each target is one of the configuration, as `New` of the clusters makes them.
abbrev pub Configured : {T : Type 0} → List Remote → List (String × T) → Type 0
Configured remotes [] = Unit
Configured remotes ((name, t) ∷ targets) =
    ((cfg : Remote) × (find_remote name remotes ≡ some cfg)) × Configured remotes targets

abbrev pub usables : {T : Type 0} → (T → Bool) → List (String × T) → ℕ
usables usable [] = 0
usables usable ((name, t) ∷ targets) =
    if usable t then suc (usables usable targets) else usables usable targets

-- In a settled state `CanUse` changes no later answer, of the same remote or another. So it is where every
-- health is known and no check comes in between: then it sets an interval and a timer only.
abbrev pub Settles : {T S : Type 0} → (T → S → Bool × S) → (S → Type 0) → Type 0
Settles {T} {S} can_use Settled =
    (t u : T) (s : S)
    → Settled s
    → Settled (can_use t s).1 × ((can_use u (can_use t s).1).0 ≡ (can_use u s).0)

module _ {T S : Type 0} (get_head : T → S → ℕ) (can_use : T → S → Bool × S)
    (get_last_error : T → S → String) (has_look_back : T → Bool) (Settled : S → Type 0)
    (settles : Settles can_use Settled) where
  -- Every answer is what it was.
  abbrev pub Same : S → S → Type 0
  Same s s' = Settled s' × ((u : T) → (can_use u s').0 ≡ (can_use u s).0)

  Same-can_use : (t : T) (s s' : S) → Same s s' → Same s (can_use t s').1
  Same-can_use t s s' (k, same) = ((settles t t s' k).0, λ u. (settles t u s' k).1 ∙ same u)

  info_of-status :
      (cfg : Remote) (name : String) (t : T) (head : ℕ) (b : Bool) (before after : S)
      → is_healthy
          (info_of get_head can_use get_last_error has_look_back cfg name t head b before after)
        ≡ b
  info_of-status cfg name t head true before after = refl
  info_of-status cfg name t head false before after = refl

  read-Same :
      (remotes : List Remote) (head : ℕ) (targets : List (String × T)) (s s' : S)
      → Same s s'
      → Configured remotes targets
      → let (r, s'') =
          read_remotes get_head can_use get_last_error has_look_back remotes head targets s' in
        (count is_healthy r ≡ usables (λ t. (can_use t s).0) targets)
        × ((length r ≡ length targets) × Same s s'')
  unfolding read_remotes
  read-Same remotes head [] s s' same c = (refl, (refl, same))
  read-Same remotes head ((name, t) ∷ targets) s s' same ((cfg, e), c) =
      let (n, (l, after)) =
        read-Same remotes head targets s (can_use t s').1 (Same-can_use t s s' same) c in
      let shown = info_of-status cfg name t head (can_use t s').0 s' (can_use t s').1 ∙ same.1 t in
      rw e (
        elim (Bool-cases (can_use t s).0) [
          | inl k ↦ rw (shown, k) (ap suc n)
          | inr k ↦ rw (shown, k) n
        ],
        (ap suc l, after),
      )

  any_usable-Same :
      (targets : List (String × T)) (s s' : S)
      → Same s s'
      → ((any_usable can_use targets s').0
          ≡ (if ltb 0 (usables (λ t. (can_use t s).0) targets) then healthy else unhealthy))
        × Same s (any_usable can_use targets s').1
  unfolding any_usable
  any_usable-Same [] s s' same = (refl, same)
  any_usable-Same ((name, t) ∷ targets) s s' same =
      let now = Same-can_use t s s' same in
      let rec = any_usable-Same targets s (can_use t s').1 now in
      elim (Bool-cases (can_use t s).0) [
        | inl k ↦ rw (same.1 t, k) (ground arith, now)
        | inr k ↦ rw (same.1 t, k) rec
      ]

  -- The numbers of a chain that has a cluster, whose remotes are all of the configuration and settled: each
  -- remote is counted, as healthy exactly if CanUse said so at the start; the chain is healthy exactly if
  -- the number of healthy remotes is not zero, though its status is read by a second pass of CanUse; the
  -- remotes stand in order of priority, and of name within one; no answer of CanUse has changed.
  pub chain_info-agrees :
      ⦃names : Ordered String⦄ (chain : Chain) (head : Result ℕ) (targets : List (String × T))
      (s : S)
      → Settled s
      → Configured chain.remotes targets
      → let ((info, remotes), s') =
          chain_info get_head can_use get_last_error has_look_back chain head true targets s in
        (info.remote_count ≡ length targets)
        × ((info.healthy_count ≡ usables (λ t. (can_use t s).0) targets)
            × ((info.status ≡ (if ltb 0 info.healthy_count then healthy else unhealthy))
                × (IsSorted remotes × Same s s')))
  unfolding chain_info get_remote_infos get_chain_status
  chain_info-agrees chain head targets s settled c =
      let (r, s') =
        read_remotes get_head can_use get_last_error has_look_back chain.remotes (or_zero head)
          targets s in
      let (k, (l, same)) =
        read-Same chain.remotes (or_zero head) targets s s (settled, λ u. refl) c in
      let (status, after) = any_usable-Same targets s s' same in
      let counted = count-sort is_healthy r ∙ k in
      (
        length-sort r ∙ l,
        (
          counted,
          (
            status ∙ ap (λ (n : ℕ). if ltb 0 n then healthy else unhealthy) (sym counted),
            (sort-IsSorted r, after),
          ),
        ),
      )
