-- ===== src/Gateway/Telemetry/Held.antt =====
-- How much svc/gateway/quarks/telemetry/component.go ever publishes.
use venn.Prelude.{
  ℕ, ◌+◌, ◌≤◌, ◌≡◌, refl, sym, ◌∙◌, inl, inr, Bool, true, Option, none, some, List, [], ◌∷◌, arith,
  ltb, length, length-append, Bool-cases,
}
use venn.Rpc.{Error, Result, ok, err}
use venn.Gateway.Telemetry.{
  Reader, waiting, reading, ended, Telemetry, publish, read, Traffic, Event, publishes, reads,
  new_telemetry, new_traffic, unblock, step, run,
}

module _ {F : Type 0} where
  abbrev taken : Reader F → ℕ
  taken waiting = 0
  taken (reading fut) = 1
  taken ended = 1

  -- What has been sent is in the channel or has been taken, and one is taken at most.
  abbrev Held : Traffic F → Type 0
  Held t =
      (t.telemetry.enabled ≡ true)
      × ((t.sent ≡ length t.telemetry.pending + taken t.telemetry.reader)
          × (length t.telemetry.pending ≤ 128))

  taken-le : (r : Reader F) → taken r ≤ 1
  taken-le waiting = omega arith
  taken-le (reading fut) = omega arith
  taken-le ended = omega arith

  -- The goroutine moves at most one from the channel to what has been taken.
  abbrev Same : Telemetry F → Telemetry F → Type 0
  Same t t' =
      (t'.enabled ≡ t.enabled)
      × ((length t'.pending + taken t'.reader ≡ length t.pending + taken t.reader)
          × (length t'.pending ≤ length t.pending))

  read-Same :
      (b : Bool) (p : List F) (r : Reader F)
      → Same
          (record { enabled = b; pending = p; reader = r })
          (read (record { enabled = b; pending = p; reader = r }))
  unfolding read
  read-Same b [] waiting = (refl, (refl, omega arith))
  read-Same b (fut ∷ p) waiting = (refl, (omega arith, omega arith))
  read-Same b p (reading fut) = (refl, (refl, omega arith))
  read-Same b p ended = (refl, (refl, omega arith))

  unblock-Held :
      (blocked : List F) (t : Traffic F) (t' : Telemetry F)
      → Held (record t { telemetry = t' })
      → Held (unblock blocked t' t)
  unblock-Held [] t t' h = h
  unblock-Held (fut ∷ blocked) t t' h = elim (Bool-cases (ltb (length t'.pending) 128)) [
    | inl e ↦ rw e (
      h.0,
      (
        omega (arith, h.1.0, length-append t'.pending (fut ∷ [])),
        ground (arith, length-append t'.pending (fut ∷ [])),
      ),
    )
    | inr e ↦ rw e h
  ]

  publishes-Held :
      (marshal : Option Error) (async : Result F) (t : Traffic F)
      → Held t
      → Held (step (publishes marshal async) t)
  unfolding step publish
  publishes-Held (some e) async t h = rw (h.0) (refl, h.1)
  publishes-Held none (err e) t h = rw (h.0) (refl, h.1)
  publishes-Held none (ok fut) t h = elim (Bool-cases (ltb (length t.telemetry.pending) 128)) [
    | inl e ↦
        rw (h.0, e)
          (
            refl,
            (
              omega (arith, h.1.0, length-append t.telemetry.pending (fut ∷ [])),
              ground (arith, length-append t.telemetry.pending (fut ∷ [])),
            ),
          )
    | inr e ↦ rw (h.0, e) (refl, h.1)
  ]

  step-Held : (e : Event F) (t : Traffic F) → Held t → Held (step e t)
  unfolding step
  step-Held (publishes marshal async) t h = publishes-Held marshal async t h
  step-Held reads t (b, (n, l)) =
      let t1 = t.telemetry in
      let (b', (n', l')) = read-Same t1.enabled t1.pending t1.reader in
      unblock-Held t.blocked t (read t1) (b' ∙ b, (n ∙ sym n', omega (arith, l, l')))

  run-Held : (es : List (Event F)) (t : Traffic F) → Held t → Held (run es t)
  unfolding run
  run-Held [] t h = h
  run-Held (e ∷ es) t h = run-Held es (step e t) (step-Held e t h)

  -- However the requests of an enabled gateway and its goroutine take turns, at most 129 acknowledgements
  -- are ever sent to the channel, and so at most 129 publishes succeed.
  pub run-sent : (es : List (Event F)) → (run es new_traffic).sent ≤ 129
  unfolding new_traffic new_telemetry
  run-sent es =
      let t = run es new_traffic in
      let (b, (n, l)) = run-Held es new_traffic (refl, (refl, omega arith)) in
      omega (arith, n, l, taken-le t.telemetry.reader)
