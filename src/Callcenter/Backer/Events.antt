-- ===== src/Callcenter/Backer/Events.antt =====
-- A backer under any sequence of replies and timer callbacks (lib/callcenter/backer.go).
use venn.Prelude.{
  ℕ, zero, suc, ◌*◌, ◌^◌, ◌<◌, ◌≤◌, ◌≡◌, refl, ap, ◌⊎◌, inl, true, Option, none, some, List, [],
  ◌∷◌, arith,
}
use native.Mathlib.Nat.{pow-suc}
use venn.Prelude.Int.{pos}
use venn.Prelude.Duration.{Duration, double, max}
use venn.Rpc.{Error}
use venn.Callcenter.Backer.{Backer, new_backer, fire, ok, limit, error, note}

-- What reaches a backer: the outcome of a request, or its timer.
pub data Event : Type 0 where
  replied : Option Error → Event
  fired : Event

unfoldable pub step : Backer → Event → Backer
step b (replied e) = note e b
step b fired = fire b

unfoldable pub run : Backer → List Event → Backer
run b [] = b
run b (e ∷ es) = run (step b e) es

-- A remote that is held back has its timer set, for the rate limit's time or for the error's.
abbrev pub WillRecover : Backer → Type 0
WillRecover b =
    (b.happy ≡ true) ⊎ ((b.timer ≡ some b.rate_limit_timeout) ⊎ (b.timer ≡ some b.timeout))

step-WillRecover : (b : Backer) (e : Event) → WillRecover b → WillRecover (step b e)
unfolding step note fire ok limit error
step-WillRecover b (replied none) w = ground arith
step-WillRecover b (replied (some e)) w = ground arith
step-WillRecover b fired w = ground arith

run-WillRecover : (b : Backer) (es : List Event) → WillRecover b → WillRecover (run b es)
unfolding run
run-WillRecover b [] w = w
run-WillRecover b (e ∷ es) w = run-WillRecover (step b e) es (step-WillRecover b e w)

-- After any events from its creation, a backer that refuses requests has its timer set, for the
-- rate limit's time or for the current error timeout: no remote is held back for ever.
pub reachable-WillRecover :
    (limit_time low high : Duration) (es : List Event)
    → WillRecover (run (new_backer limit_time low high) es)
unfolding new_backer
reachable-WillRecover limit_time low high es = run-WillRecover _ es (inl refl)

-- `n` node errors, with the timer's callback after each.
unfoldable pub failures : ℕ → Backer → Backer
failures zero b = b
failures (suc n) b = failures n (fire (error b))

pow_pos : (n : ℕ) → 1 ≤ 2 ^ n
pow_pos zero = omega arith
pow_pos (suc n) = rw pow-suc (omega (arith, pow_pos n))

le-mul : (k x : ℕ) → 1 ≤ k → x ≤ k * x
le-mul k x h = grind arith

double_bound : (n t : ℕ) → 2 ^ n * (2 * t) < 2 ^ 63 → 2 * t < 2 ^ 63
double_bound n t h = omega (arith, le-mul (2 ^ n) (2 * t) (pow_pos n))

failed_once :
    (t m : ℕ) (b : Backer)
    → b.happy ≡ true
    → b.error_max_timeout ≡ pos m
    → b.timeout ≡ pos t
    → m ≤ 2 * t
    → 2 * t < 2 ^ 63
    → ((fire (error b)).timeout ≡ pos (2 * t))
      × ((fire (error b)).happy ≡ true)
      × ((fire (error b)).error_max_timeout ≡ pos m)
unfolding fire error double max
failed_once t m b h em et l bound = ground arith

failures_from :
    (n t m : ℕ) (b : Backer)
    → b.happy ≡ true
    → b.error_max_timeout ≡ pos m
    → b.timeout ≡ pos t
    → m ≤ t
    → 2 ^ n * t < 2 ^ 63
    → (failures n b).timeout ≡ pos (2 ^ n * t)
unfolding failures
failures_from zero t m b h em et l bound = rw et (ap pos (omega arith))
failures_from (suc n) t m b h em et l bound =
    let grow : 2 ^ suc n * t ≡ 2 ^ n * (2 * t) = rw pow-suc (omega arith) in
    let small : 2 * t < 2 ^ 63 = double_bound n t (rw grow at bound) in
    let (now, free, kept) = failed_once t m b h em et (omega arith) small in
    rw grow
      (failures_from n (2 * t) m (fire (error b)) free kept now (omega arith) (rw grow at bound))

first_failure :
    (m : ℕ) (low : ℕ) (b : Backer)
    → b.happy ≡ true
    → b.error_max_timeout ≡ pos m
    → b.timeout ≡ pos low
    → 2 * low ≤ m
    → m < 2 ^ 63
    → ((fire (error b)).timeout ≡ pos m)
      × ((fire (error b)).happy ≡ true)
      × ((fire (error b)).error_max_timeout ≡ pos m)
unfolding fire error double max
first_failure m low b h em et l bound = ground arith

-- From a fresh backer whose maximum is at least twice its minimum, the timeout after n + 1 node
-- errors in a row is the maximum times 2 ^ n, as long as that fits in 63 bits: the first error
-- already waits for the configured maximum, and every further one doubles past it.
pub failures_exceed_max :
    (n low high : ℕ) (limit_time : Duration)
    → 2 * low ≤ high
    → high < 2 ^ 63
    → 2 ^ n * high < 2 ^ 63
    → (failures (suc n) (new_backer limit_time (pos low) (pos high))).timeout ≡ pos (2 ^ n * high)
unfolding failures new_backer
failures_exceed_max n low high limit_time l small bound =
    let b = new_backer limit_time (pos low) (pos high) in
    let (now, free, kept) = first_failure high low b refl refl refl l small in
    failures_from n high high (fire (error b)) free kept now (omega arith) bound
