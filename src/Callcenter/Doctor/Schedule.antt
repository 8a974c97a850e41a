-- ===== src/Callcenter/Doctor/Schedule.antt =====
-- The times between health checks (lib/callcenter/doctor.go).
use venn.Prelude.{
  refl, String, ℕ, ◌^◌, ◌<◌, ◌≤◌, ◌≡◌, ◌⊎◌, inl, inr, true, false, List, [], ◌∷◌, arith, Bool,
  Bool-cases,
}
use venn.Prelude.Int.{ℤ, pos, ◌≤ℤ◌, eqb_ℤ}
use venn.Prelude.Duration.{double, min}
use venn.Rpc.{Result, ok, err}
use venn.Callcenter.Doctor.{
  new_doctor, Doctor, Complaint, pass, to_int, Timer, running, due, idle, fail, note_chain_id,
  can_use_now, close,
}
use venn.Callcenter.Doctor.Loop.{
  Phase, checking, selecting, returned, Event, expires, ticks, ends, no_block, chain_answer, asked,
  closes, step, run, expire, take_tick, return_if,
}

-- A next check is to come: it runs, or its timer is set for the current interval or has expired, or the
-- doctor is closed.
abbrev pub Comes : Phase → Doctor → Type 0
Comes checking d = Unit
Comes selecting d = (d.timer ≡ running d.interval) ⊎ (d.timer ≡ due)
Comes returned d = d.closed ≡ true

-- The interval lies between the two limits.
pub record IsBounded (low high : ℕ) (d : Doctor) : Type 0 where
  pub lower : d.min_interval ≡ pos low
  pub upper : d.max_interval ≡ pos high
  pub above : pos low ≤ℤ d.interval
  pub below : d.interval ≤ℤ pos high

module _ (low high : ℕ) (ordered : low ≤ high) (small : high < 2 ^ 62) where
  abbrev IsScheduled : Phase × Doctor → Type 0
  IsScheduled (phase, d) = IsBounded low high d × Comes phase d

  IsBounded-fail :
      (c : Complaint) (n : ℤ) (d : Doctor) → IsBounded low high d → IsBounded low high (fail c n d)
  IsBounded-fail c n d b = ground arith

  IsBounded-pass : (d : Doctor) → IsBounded low high d → IsBounded low high (pass d)
  unfolding min double
  IsBounded-pass d b = ground arith

  note_chain_id-IsScheduled :
      (a : Result ℕ) (d : Doctor)
      → IsBounded low high d
      → IsScheduled (selecting, note_chain_id a d)
  unfolding note_chain_id
  note_chain_id-IsScheduled (err e) d b = (IsBounded-fail _ _ d b, inl refl)
  note_chain_id-IsScheduled (ok n) d b = elim (Bool-cases (eqb_ℤ (to_int n) d.chain_id)) [
    | inl k ↦ rw (k, note_chain_id) (IsBounded-pass d b, inl refl)
    | inr k ↦ rw (k, note_chain_id) (IsBounded-fail _ _ d b, inl refl)
  ]

  IsBounded-asked : (d : Doctor) → IsBounded low high d → IsBounded low high (can_use_now d).1
  unfolding can_use_now
  IsBounded-asked d b = ground arith

  Comes-asked : (phase : Phase) (d : Doctor) → Comes phase d → Comes phase (can_use_now d).1
  unfolding can_use_now
  Comes-asked checking d c = tt
  Comes-asked selecting d c = ground arith
  Comes-asked returned d c = ground arith

  IsBounded-closes : (d : Doctor) → IsBounded low high d → IsBounded low high (close d).1
  unfolding close
  IsBounded-closes d b = ground arith

  Comes-closes : (phase : Phase) (d : Doctor) → Comes phase d → Comes phase (close d).1
  unfolding close
  Comes-closes checking d c = tt
  Comes-closes selecting d c = ground arith
  Comes-closes returned d c = ground arith

  step-expires :
      (t : Timer) (phase : Phase) (d : Doctor)
      → IsScheduled (phase, d)
      → IsScheduled (phase, expire t d)
  step-expires (running t) checking d (b, c) = (ground arith, tt)
  step-expires (running t) selecting d (b, c) = (ground arith, inr refl)
  step-expires (running t) returned d (b, c) = (ground arith, c)
  step-expires due phase d h = h
  step-expires idle phase d h = h

  step-ticks : (t : Timer) (d : Doctor) → IsScheduled (selecting, d) → IsScheduled (take_tick t d)
  step-ticks (running t) d h = h
  step-ticks due d (b, c) = (ground arith, tt)
  step-ticks idle d h = h

  step-ends :
      (closed : Bool) (d : Doctor)
      → d.closed ≡ closed
      → IsScheduled (selecting, d)
      → IsScheduled (return_if closed d)
  step-ends true d e (b, c) = (ground arith, e)
  step-ends false d e h = h

  step-IsScheduled :
      (e : Event) (phase : Phase) (d : Doctor)
      → IsScheduled (phase, d)
      → IsScheduled (step e phase d)
  unfolding step
  step-IsScheduled expires phase d h = step-expires d.timer phase d h
  step-IsScheduled ticks checking d h = h
  step-IsScheduled ticks selecting d h = step-ticks d.timer d h
  step-IsScheduled ticks returned d h = h
  step-IsScheduled ends checking d h = h
  step-IsScheduled ends selecting d h = step-ends d.closed d refl h
  step-IsScheduled ends returned d h = h
  step-IsScheduled (no_block e) checking d (b, c) = (IsBounded-fail _ _ d b, inl refl)
  step-IsScheduled (no_block e) selecting d h = h
  step-IsScheduled (no_block e) returned d h = h
  step-IsScheduled (chain_answer a) checking d (b, c) = note_chain_id-IsScheduled a d b
  step-IsScheduled (chain_answer a) selecting d h = h
  step-IsScheduled (chain_answer a) returned d h = h
  step-IsScheduled asked phase d (b, c) = (IsBounded-asked d b, Comes-asked phase d c)
  step-IsScheduled closes phase d (b, c) = (IsBounded-closes d b, Comes-closes phase d c)

  run-IsScheduled :
      (es : List Event) (phase : Phase) (d : Doctor)
      → IsScheduled (phase, d)
      → IsScheduled (run es phase d)
  unfolding run
  run-IsScheduled [] phase d h = h
  run-IsScheduled (e ∷ es) phase d h =
      run-IsScheduled es (step e phase d).0 (step e phase d).1 (step-IsScheduled e phase d h)

-- Whatever happens to a new doctor, checks, ticks of its timer, calls of CanUse and Close in any order, a
-- next check comes unless it is closed: it runs, or in the select of its loop the timer is set for the current
-- interval or has expired. The interval lies between the two limits, if the lower one is not above the upper
-- one and that is below 2^62 nanoseconds.
pub run-new_doctor :
    (chain_id : ℤ) (chain_name remote_name : String) (low high : ℕ) (es : List Event)
    → low ≤ high
    → high < 2 ^ 62
    → let (phase, d) =
        run es checking (new_doctor chain_id chain_name remote_name (pos low) (pos high)) in
      IsBounded low high d × Comes phase d
unfolding new_doctor
run-new_doctor chain_id chain_name remote_name low high es l b =
    run-IsScheduled low high l b es checking
      (new_doctor chain_id chain_name remote_name (pos low) (pos high))
      (record { lower = refl; upper = refl; above = omega arith; below = omega arith }, tt)
