-- ===== src/Election/Leases.antt =====
-- The leases of lib/election/redsync.go: what becomes of each of them.
use venn.Prelude.{
  ℕ, ◌≡◌, refl, String, Bool, true, false, Option, none, some, if◌then◌else◌, ap, sym, ◌∙◌, ◌⊎◌,
  inl, inr, arith,
}
use venn.Rpc.{Error, Result, ok, err}
use venn.Election.Redilock.{
  Redis, Redilock, new_redilock, refresh, acquire_lease, loop, follow_leader, on_discovered,
  discover_leader, broadcast_health, is_self, is_nil,
}
use venn.Election.Stages.{
  StageOf, refresh-StageOf, acquire_lease-StageOf, ctxs_of, effects_of, asked,
}

module _ {U S : Type 0} (redis : Redis U S) (same : Discrete U) (nil_id id : U)
    (namespace : String) where
  -- The steps that change the strategy: a lease that is asked for, the `updateSubs` that runs for it in
  -- the background, and one `loop`, on whatever Redis holds by then.
  pub data Step : Redilock → Redilock → Type 0 where
    acquires : {m : Redilock} → Step m (acquire_lease m)
    refreshes : {m : Redilock} → Step m (refresh m)
    loops :
        {m m' : Redilock} (rounds : ℕ) (s s' : S) (refused : Option Error)
        → loop redis same nil_id id namespace rounds m s ≡ some (refused, (m', s'))
        → Step m m'

  pub data Reachable : Redilock → Type 0 where
    start : Reachable new_redilock
    step : {m m' : Redilock} → Reachable m → Step m m' → Reachable m'

  abbrev Outcome : Type 0
  Outcome = Option Error × (Redilock × S)

  either_keeps :
      (b : Bool) (x y : Outcome) {m : Redilock}
      → x.1.0 ≡ m
      → y.1.0 ≡ m
      → (if b then x else y).1.0 ≡ m
  either_keeps true x y p q = p
  either_keeps false x y p q = q

  some_inj : {x y : Outcome} → some x ≡ some y → y.1.0 ≡ x.1.0
  some_inj {x = x} {y = y} run =
      sym (ap (λ (o : Option Outcome). elim o [ some r ↦ r.1.0 | none ↦ x.1.0 ]) run)

  either_left :
      (b : Bool) (x y : Outcome) {z : Outcome}
      → (if b then some x else some y) ≡ some z
      → (z.1.0 ≡ x.1.0) ⊎ (z.1.0 ≡ y.1.0)
  either_left true x y run = inl (some_inj run)
  either_left false x y run = inr (some_inj run)

  unless_refused : Option Error → Redilock → S → Option Outcome → Option Outcome
  unless_refused refused m s next = elim refused [ some e ↦ some (some e, (m, s)) | none ↦ next ]

  unless_refused_lem :
      (refused : Option Error) {m : Redilock} (s : S) (next : Option Outcome) {z : Outcome}
      → unless_refused refused m s next ≡ some z
      → (z.1.0 ≡ m) ⊎ (next ≡ some z)
  unfolding unless_refused
  unless_refused_lem none s next run = inr run
  unless_refused_lem (some e) s next run = inl (some_inj run)

  -- The strategy as the loop leaves it: untouched, or told who leads.
  abbrev pub Settled : Redilock → Redilock → Type 0
  Settled m m' =
      (m' ≡ m)
      ⊎ ((leader : U) × (m'
            ≡ refresh (record m { is_leader = is_self redis same nil_id id namespace leader })))

  follow_leader-refresh :
      (leader : U) (m : Redilock) (s : S)
      → (follow_leader redis same nil_id id namespace leader m s).1.0
        ≡ refresh (record m { is_leader = is_self redis same nil_id id namespace leader })
  unfolding follow_leader
  follow_leader-refresh leader m s =
      either_keeps (is_self redis same nil_id id namespace leader) _ _ refl refl

  on_discovered-Settled :
      (found : Option (Result U × S)) (m m' : Redilock) (s' : S) (refused : Option Error)
      → on_discovered redis same nil_id id namespace found m ≡ some (refused, (m', s'))
      → Settled m m'
  on_discovered-Settled none m m' s' refused run = absurd (ground arith)
  on_discovered-Settled (some (err e, s)) m m' s' refused run = inl (some_inj run)
  on_discovered-Settled (some (ok leader, s)) m m' s' refused run =
      elim (either_left (is_nil redis same nil_id id namespace leader) _ _ run) [
        | inl e ↦ inl e
        | inr e ↦ inr (leader, e ∙ follow_leader-refresh leader m s)
      ]

  loop-Settled :
      (rounds : ℕ) (m m' : Redilock) (s s' : S) (refused : Option Error)
      → loop redis same nil_id id namespace rounds m s ≡ some (refused, (m', s'))
      → Settled m m'
  unfolding loop unless_refused
  loop-Settled rounds m m' s s' refused run =
      elim (unless_refused_lem (broadcast_health redis same nil_id id namespace s).0 _
        (on_discovered redis same nil_id id namespace
          (discover_leader redis same nil_id id namespace rounds
            (broadcast_health redis same nil_id id namespace s).1)
          m)
        run) [
          | inl e ↦ inl e
          | inr e ↦
              on_discovered-Settled
                (discover_leader redis same nil_id id namespace rounds
                  (broadcast_health redis same nil_id id namespace s).1)
                m m' s' refused e
        ]

  Step-StageOf : (i : ℕ) {m m' : Redilock} → Step m m' → StageOf i m → StageOf i m'
  Step-StageOf i {m} acquires h = acquire_lease-StageOf i m h
  Step-StageOf i {m} refreshes h = refresh-StageOf i m h
  Step-StageOf i {m} {m'} (loops rounds s s' refused run) h =
      elim (loop-Settled rounds m m' s s' refused run) [
        | inl e ↦ rw e h
        | inr (leader, e) ↦ rw e (
            refresh-StageOf i
              (record m { is_leader = is_self redis same nil_id id namespace leader }) h)
      ]

  -- Whatever is asked for, whenever the leases are told and whatever Redis answers to the loop, a lease
  -- is in one of four stages: it was not asked for yet, and nothing happened to it; it waits in the
  -- list and nothing happened to it; it is held in the list and its context was sent once; or it is in
  -- the list no more, and its context was sent once and after that cancelled once, for lost leadership.
  pub Reachable-StageOf : (i : ℕ) {m : Redilock} → Reachable m → StageOf i m
  unfolding ctxs_of effects_of
  Reachable-StageOf i start = asked (omega arith)
  Reachable-StageOf i (step r s) = Step-StageOf i s (Reachable-StageOf i r)
