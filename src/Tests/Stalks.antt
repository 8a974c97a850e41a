-- ===== src/Tests/Stalks.antt =====
-- svc/node/atoms/stalker at concrete inputs.
use venn.Prelude.{
  ℕ, suc, ◌≡◌, ◌-◌, ◌≤◌, refl, String, Option, none, some, List, [], ◌∷◌, arith, length, drop, map,
}
use venn.Prelude.Int.{ℤ, pos, negsuc, ◌≤ℤ◌}
use venn.Prelude.Int64.{wrap, times, quotient}
use venn.Prelude.Duration.{Duration}
use venn.Prelude.Maps.{lookup}
use venn.Rpc.{Error, ok}
use venn.Stores.Head.{Atomic, atomic_store}
use venn.Stalker.{block_time, remaining, half_second, observe, after_put}
use venn.Stalker.Waiting.{after_put-half}
use venn.Stalker.Delay.{DelayTracker, new_delay_tracker, clamp, add, add_all}
use venn.Stalker.Delay.Ring.{rotate}
use venn.Stalker.Delay.Window.{next_pos, add_all-window}
use venn.Tests.Hex.{hexutil}
use venn.Tests.Data.{mainnet}

abbrev delays : List ℤ
delays = pos 3 ∷ pos 6 ∷ pos 200 ∷ pos 9 ∷ []

add_all-window_example :
    rotate
      (next_pos (add_all delays (new_delay_tracker 3 (pos 0) (pos 100))))
      (add_all delays (new_delay_tracker 3 (pos 0) (pos 100))).nums
    ≡ drop (length delays - 3) (map (clamp (pos 0) (pos 100)) delays)
add_all-window_example = add_all-window 3 (pos 0) (pos 100) delays (omega arith) (omega arith)

abbrev tracker : DelayTracker
tracker = record {
  size = 128;
  pos = 0;
  mean = pos 0;
  nums = [];
  min = pos 0;
  max = pos 12_000_000_000;
}

-- The clock reads the second 1,700,000,002.
abbrev now : ℤ
now = pos 1_700_000_002_000_000_000

abbrev clock : Atomic → ℤ
clock s = now

mean_run :
    (observe (remaining 1_700_000_000 (block_time mainnet) now) tracker).mean ≡ pos 10_000_000_000
unfolding remaining block_time add venn.Prelude.Int.◌-ℤ◌ venn.Prelude.Int.◌+ℤ◌
    venn.Callcenter.Validator.unix quotient wrap times
mean_run = refl

tracked : lookup mainnet.name (("mainnet", tracker) ∷ []) ≡ some tracker
unfolding lookup
tracked = refl

after_put-half_run :
    (wait : Duration) × (e : Option Error) × (dt' : List (String × DelayTracker)) × (after_put
        hexutil clock atomic_store mainnet 1000 1_700_000_000 now
        (ok 999)
        (("mainnet", tracker) ∷ [])
      ≡ some ((wait, e), dt'))
    × (half_second ≤ℤ wait)
after_put-half_run =
    after_put-half hexutil clock atomic_store mainnet 1000 1_700_000_000 now (ok 999)
      (("mainnet", tracker) ∷ []) tracker (omega arith) tracked (rw mean_run (omega arith))
      (rw mean_run (omega arith))
