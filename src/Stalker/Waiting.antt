-- ===== src/Stalker/Waiting.antt =====
-- How long svc/node/atoms/stalker/stalker.go waits.
use venn.Prelude.{
  ℕ, ◌-◌, ◌*◌, ◌/◌, ◌^◌, ◌≤◌, ◌≡◌, String, Option, none, some, List, arith, refl, ◌==◌, Bool-cases,
  inl, inr,
}
use venn.Prelude.Int.{ℤ, pos, negsuc, ◌+ℤ◌, ◌-ℤ◌, ◌≤ℤ◌, +ℤ_parts, -ℤ_parts, int_laws}
use venn.Prelude.Int64.{wrap_nat, wrap, times, quotient}
use venn.Prelude.Maps.{lookup, insert}
use venn.Prelude.Duration.{Duration, halve, min, max}
use venn.Rpc.{Chain, Hexutil, Error, Result, ok, err}
use venn.Stores.Head.{Store}
use venn.Stalker.Delay.{DelayTracker}
use venn.Stalker.{
  half_second, block_time, remaining, add_mean, wait_new, wait_known, observe, after_put,
}

half-block_time : (c : Chain) → half_second ≤ℤ block_time c
unfolding block_time max
half-block_time c = ground arith

half-wait_known : (left time : Duration) → half_second ≤ℤ time → half_second ≤ℤ wait_known left time
unfolding wait_known min max
half-wait_known left time h = ground arith

wrap_small : (a : ℤ) → negsuc (2 ^ 63 - 1) ≤ℤ a → a ≤ℤ pos (2 ^ 63 - 1) → wrap a ≡ a
unfolding wrap wrap_nat
wrap_small a l u = ground arith

-- The wait before the mean is added.
abbrev base : Duration → Duration → Duration
base left time = max (max (min left time) half_second) (halve time)

base-half : (left time : Duration) → half_second ≤ℤ base left time
unfolding max
base-half left time = ground arith

base-le : (left time : Duration) → half_second ≤ℤ time → base left time ≤ℤ time
unfolding max min halve
base-le left time h = ground arith

half-add_mean :
    (b : Duration) (mean : ℤ)
    → half_second ≤ℤ b
    → b ≤ℤ pos (2 ^ 60)
    → negsuc (2 ^ 62) ≤ℤ mean
    → mean ≤ℤ pos (2 ^ 59)
    → half_second ≤ℤ add_mean b mean
unfolding add_mean times quotient
half-add_mean b (negsuc m) h u l k =
    let d = negsuc m -ℤ pos 250_000_000 in
    let p = -ℤ_parts (negsuc m) (pos 250_000_000) in
    ground (arith, p, wrap_small d (omega int_laws) (omega int_laws))
half-add_mean b (pos m) h u l k =
    let d = pos m -ℤ pos 250_000_000 in
    let p = -ℤ_parts (pos m) (pos 250_000_000) in
    let q = +ℤ_parts b (pos (m * 9 / 10)) in
    ground (
      arith,
      p,
      q,
      wrap_small d (omega int_laws) (omega int_laws),
      wrap_small (pos (m * 9)) (omega arith) (omega arith),
      wrap_small (b +ℤ pos (m * 9 / 10)) (omega int_laws) (omega int_laws),
    )

half-wait_new :
    (left time : Duration) (mean : ℤ)
    → half_second ≤ℤ time
    → time ≤ℤ pos (2 ^ 60)
    → negsuc (2 ^ 62) ≤ℤ mean
    → mean ≤ℤ pos (2 ^ 59)
    → half_second ≤ℤ wait_new left time mean
unfolding wait_new
half-wait_new left time mean h u l k =
    half-add_mean (base left time) mean (base-half left time) (omega (arith, base-le left time h)) l
      k

time-le : (c : Chain) → c.block_time ≤ 2 ^ 60 → block_time c ≤ℤ pos (2 ^ 60)
unfolding block_time max
time-le c h = ground arith

module _ (hex : Hexutil) {S : Type 0} (clock : S → ℤ) (store : Store S) where
  -- A tick for a chain that has a tracker does not panic once the store has answered, and it waits for half a second
  -- at least, whatever the block, the clock and the answer of the store, if the block time is at most 2^60
  -- nanoseconds and the mean delay lies between -2^62 - 1 and 2^59.
  pub after_put-half :
      (chain : Chain) (number timestamp : ℕ) (now : ℤ) (prev : Result ℕ)
      (dt : List (String × DelayTracker)) (t : DelayTracker)
      → chain.block_time ≤ 2 ^ 60
      → lookup chain.name dt ≡ some t
      → negsuc (2 ^ 62) ≤ℤ (observe (remaining timestamp (block_time chain) now) t).mean
      → (observe (remaining timestamp (block_time chain) now) t).mean ≤ℤ pos (2 ^ 59)
      → (wait : Duration) × (e : Option Error) × (dt' : List (String × DelayTracker)) × (after_put
            hex clock store chain number timestamp now prev dt
          ≡ some ((wait, e), dt'))
        × (half_second ≤ℤ wait)
  unfolding after_put
  after_put-half chain number timestamp now (err e) dt t h f l u =
      (block_time chain, some e, dt, refl, half-block_time chain)
  after_put-half chain number timestamp now (ok prev) dt t h f l u =
      let time = block_time chain in
      let left = remaining timestamp time now in
      let t' = observe left t in
      elim (Bool-cases (prev == number)) [
        | inl e ↦ (
          wait_known left time,
          none,
          dt,
          ground arith,
          half-wait_known left time (half-block_time chain),
        )
        | inr e ↦ (
          wait_new left time t'.mean,
          none,
          insert chain.name t' dt,
          ground arith,
          half-wait_new left time t'.mean (half-block_time chain) (time-le chain h) l u,
        )
      ]
