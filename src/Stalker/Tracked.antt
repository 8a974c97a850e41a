-- ===== src/Stalker/Tracked.antt =====
-- The trackers that the loops of svc/node/atoms/stalker/stalker.go rely on.
use mathlib.Core.Path.{subst}
use venn.Prelude.{
  ℕ, zero, suc, ◌≡◌, refl, inl, inr, String, ◌&&◌, ◌||◌, Option, none, some, List, [], ◌∷◌,
  get_elem?, arith, Bool-cases, Option-cases, str_eq, ◌==◌, str_eq_iff, some-injective,
}
use venn.Prelude.Int.{ℤ, pos}
use venn.Prelude.Duration.{Duration}
use venn.Prelude.Maps.{lookup, insert, lookup-insert}
use venn.Rpc.{Chain, Handler, Hexutil, Error, Result, ok, err, Json, do_raw, is_null}
use venn.Callcenter.Validator.{latest_args}
use venn.Stores.Head.{Store}
use venn.Stalker.Delay.{DelayTracker, new_delay_tracker}
use venn.Stalker.{tick, after_block, with_state, put_head, after_put, read_head}
use venn.Stalker.Loop.{
  Trackers, new_trackers, stalked, Event, is_error, without, Running, after_tick, on_which, and_run,
  run,
}

abbrev Tracked : String → Trackers → Type 0
Tracked name dt = (t : DelayTracker) × (lookup name dt ≡ some t)

-- The trackers only grow.
abbrev Grows : Trackers → Trackers → Type 0
Grows dt dt' = (name : String) → Tracked name dt → Tracked name dt'

lookup_self :
    (name : String) (t : DelayTracker) (dt : Trackers) → lookup name (insert name t dt) ≡ some t
lookup_self name t dt = ground (arith, lookup-insert name name t dt, str_eq_iff name name)

Grows-insert : (name : String) (t : DelayTracker) (dt : Trackers) → Grows dt (insert name t dt)
Grows-insert name t dt other (u, e) = elim (Bool-cases (str_eq name other)) [
  | inl k ↦ (t, ground (arith, lookup-insert name other t dt))
  | inr k ↦ (u, ground (arith, lookup-insert name other t dt))
]

module _ {S : Type 0} where
  -- Each goroutine's chain has a tracker.
  abbrev Covered : List (Chain × Handler S) → Trackers → Type 0
  Covered [] dt = Unit
  Covered ((c, h) ∷ gs) dt = Tracked c.name dt × Covered gs dt

  Covered-Grows :
      (gs : List (Chain × Handler S)) (dt dt' : Trackers)
      → Grows dt dt'
      → Covered gs dt
      → Covered gs dt'
  Covered-Grows [] dt dt' g c = tt
  Covered-Grows ((d, h) ∷ gs) dt dt' g (t, c) = (g d.name t, Covered-Grows gs dt dt' g c)

  Covered-without :
      (n : ℕ) (gs : List (Chain × Handler S)) (dt : Trackers)
      → Covered gs dt
      → Covered (without n gs) dt
  Covered-without n [] dt c = tt
  Covered-without zero ((d, h) ∷ gs) dt (t, c) = c
  Covered-without (suc n) ((d, h) ∷ gs) dt (t, c) = (t, Covered-without n gs dt c)

  Covered-get :
      (n : ℕ) (gs : List (Chain × Handler S)) (dt : Trackers) (c : Chain) (h : Handler S)
      → Covered gs dt
      → get_elem? gs n ≡ some (c, h)
      → Tracked c.name dt
  Covered-get n [] dt c h u e = absurd (ground arith)
  Covered-get zero ((d, k) ∷ gs) dt c h (t, u) e =
      subst (λ (x : Chain × Handler S). Tracked (x.0).name dt) (some-injective _ _ e) t
  Covered-get (suc n) ((d, k) ∷ gs) dt c h (t, u) e = Covered-get n gs dt c h u e

  -- What `New` makes covers all that the leader stalks.
  Covered-new_trackers :
      (remotes : List (String × Handler S)) (chains : List Chain)
      → Covered (stalked remotes chains) (new_trackers chains)
  unfolding stalked new_trackers
  Covered-new_trackers remotes [] = tt
  Covered-new_trackers remotes (c ∷ chains) =
      let t = new_delay_tracker 128 (pos 0) (pos c.block_time) in
      let rest =
        Covered-Grows (stalked remotes chains) (new_trackers chains)
          (insert c.name t (new_trackers chains)) (Grows-insert c.name t (new_trackers chains))
          (Covered-new_trackers remotes chains) in
      let own : Tracked c.name (insert c.name t (new_trackers chains)) =
        (t, lookup_self c.name t (new_trackers chains)) in
      elim (Bool-cases c.parsed_stalk) [
        | inl k ↦ rw k (elim (Option-cases (lookup c.name remotes)) [
          | inl e ↦ rw e rest
          | inr (h, e) ↦ rw e (own, rest)
        ])
        | inr k ↦ rw k rest
      ]

module _ (hex : Hexutil) {S : Type 0} (clock : S → ℤ) (store : Store S) where
  -- `Put` does not panic.
  abbrev pub Puts : Type 0
  Puts = (c : Chain) (n : ℕ) (s : S) → (r : Result ℕ × S) × (store.put c n s ≡ some r)

  -- A tick that does not panic and loses no tracker
  abbrev Fine : Trackers → Option ((Duration × Option Error) × (Trackers × S)) → Type 0
  Fine dt none = ⊥
  Fine dt (some (a, (dt', s))) = Grows dt dt'

  after_put-Fine :
      (chain : Chain) (number timestamp : ℕ) (now : ℤ) (prev : Result ℕ) (dt : Trackers) (s : S)
      → Tracked chain.name dt
      → Fine dt (
          with_state hex clock store s
            (after_put hex clock store chain number timestamp now prev dt))
  unfolding after_put
  after_put-Fine chain number timestamp now (err e) dt s t = λ name u. u
  after_put-Fine chain number timestamp now (ok prev) dt s (t, e) =
      elim (Bool-cases (prev == number)) [
        | inl k ↦ rw k (λ name u. u)
        | inr k ↦ rw k (rw e (Grows-insert chain.name _ dt))
      ]

  put_head-Fine :
      (chain : Chain) (number timestamp : ℕ) (now : ℤ) (put : Option (Result ℕ × S)) (dt : Trackers)
      → (r : Result ℕ × S) × (put ≡ some r)
      → Tracked chain.name dt
      → Fine dt (put_head hex clock store chain now number timestamp put dt)
  put_head-Fine chain number timestamp now none dt (r, e) t = absurd (ground arith)
  put_head-Fine chain number timestamp now (some (prev, s)) dt r t =
      after_put-Fine chain number timestamp now prev dt s t

  after_block-Fine :
      (chain : Chain) (block : Result Json) (s : S) (dt : Trackers)
      → Puts
      → Tracked chain.name dt
      → Fine dt (after_block hex clock store chain block s dt)
  after_block-Fine chain (err e) s dt puts t = λ name u. u
  after_block-Fine chain (ok block) s dt puts t = elim (Bool-cases (is_null block)) [
    | inl k ↦ rw k (λ name u. u)
    | inr k ↦ rw k (elim (Option-cases (read_head hex block)) [
      | inl e ↦ rw e (λ name u. u)
      | inr (h, e) ↦
          rw e
            (put_head-Fine chain h.0 h.1 (clock s) (store.put chain h.0 s) dt (puts chain h.0 s) t)
    ])
  ]

  tick-Fine :
      (cluster : Handler S) (chain : Chain) (dt : Trackers) (s : S)
      → Puts
      → Tracked chain.name dt
      → Fine dt (tick hex clock store cluster chain dt s)
  unfolding tick
  tick-Fine cluster chain dt s puts t =
      let x = do_raw hex cluster (some chain) "eth_getBlockByNumber" latest_args s in
      after_block-Fine chain (x.0) (x.1) dt puts t

  -- A step of the goroutines, and all of them, where each has a tracker.
  abbrev Sound : Option (Running S) → Type 0
  Sound none = ⊥
  Sound (some (gs, (dt, s))) = Covered gs dt

  after_tick-Sound :
      (e : Event S) (gs : List (Chain × Handler S)) (dt : Trackers)
      (x : Option ((Duration × Option Error) × (Trackers × S)))
      → Covered gs dt
      → Fine dt x
      → Sound (after_tick e gs x)
  after_tick-Sound e gs dt none c g = elim g [ ]
  after_tick-Sound e gs dt (some ((wait, error), (dt', s))) c g =
      let kept = Covered-Grows gs dt dt' g c in
      elim (Bool-cases ((is_error error && e.done_on_error) || e.done_waiting)) [
        | inl k ↦ rw k (Covered-without e.which gs dt' kept)
        | inr k ↦ rw k kept
      ]

  on_which-Sound :
      (e : Event S) (gs : List (Chain × Handler S)) (dt : Trackers) (s : S)
      → Puts
      → Covered gs dt
      → Sound (on_which hex clock store e (get_elem? gs e.which) (gs, (dt, s)))
  on_which-Sound e gs dt s puts c = elim (Option-cases (get_elem? gs e.which)) [
    | inl k ↦ rw k c
    | inr ((d, h), k) ↦ rw k (
        after_tick-Sound e gs dt (tick hex clock store h d dt (e.meanwhile s)) c
          (tick-Fine h d dt (e.meanwhile s) puts (Covered-get e.which gs dt d h c k)))
  ]

  and_run-Sound :
      (x : Option (Running S)) (f : Running S → Option (Running S))
      → Sound x
      → ((r : Running S) → Sound (some r) → Sound (f r))
      → Sound (and_run x f)
  and_run-Sound none f c k = c
  and_run-Sound (some r) f c k = k r c

  run-Sound :
      (es : List (Event S)) (gs : List (Chain × Handler S)) (dt : Trackers) (s : S)
      → Puts
      → Covered gs dt
      → Sound (run hex clock store es (gs, (dt, s)))
  unfolding run
  run-Sound [] gs dt s puts c = c
  run-Sound (e ∷ es) gs dt s puts c =
      and_run-Sound (on_which hex clock store e (get_elem? gs e.which) (gs, (dt, s)))
        (run hex clock store es) (on_which-Sound e gs dt s puts c)
        (λ r k. run-Sound es (r.0) (r.1.0) (r.1.1) puts k)

  Sound-some : (x : Option (Running S)) → Sound x → (r : Running S) × (x ≡ some r)
  Sound-some none c = elim c [ ]
  Sound-some (some r) c = (r, refl)

  -- When the head store does not panic, no goroutine of the stalker does, in whatever order they tick and
  -- whatever the rest of the program does in between: each finds the tracker that was made for its chain.
  pub run-some :
      (remotes : List (String × Handler S)) (chains : List Chain) (es : List (Event S)) (s : S)
      → Puts
      → (r : Running S) × (run hex clock store es (stalked remotes chains, (new_trackers chains, s))
          ≡ some r)
  run-some remotes chains es s puts =
      Sound-some (run hex clock store es (stalked remotes chains, (new_trackers chains, s))) (
        run-Sound es (stalked remotes chains) (new_trackers chains) s puts
          (Covered-new_trackers remotes chains))
