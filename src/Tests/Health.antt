-- ===== src/Tests/Health.antt =====
-- lib/callcenter/doctor.go, lib/util/error.go and lib/stores/headstore/atomic.go at concrete inputs.
use venn.Prelude.{
  ℕ, suc, ◌≡◌, ◌≢◌, ◌↔◌, ◌<◌, ◌≤◌, ◌^◌, refl, Bool, true, false, Option, none, some, List, [], ◌∷◌,
  arith, if◌then◌else◌, str_eq,
}
use Prim.Native.Nat.{max}
use venn.Prelude.Int.{pos, negsuc}
use venn.Rpc.{Error, plain, rpc_error, ok}
use venn.Util.Text.{codes, contains_ignore_case}
use venn.Util.Errors.Classes.{Occurs, contains_ignore_case_iff}
use venn.Callcenter.Doctor.{Doctor, new_doctor, unknown, healthy, do_uint64, check, can_use}
use venn.Callcenter.Doctor.Checks.{is_healthy, Confirms, check-healthy_iff, can_use-answers}
use venn.Callcenter.Doctor.Loop.{
  checking, Event, expires, ticks, no_block, chain_answer, asked, run,
}
use venn.Callcenter.Doctor.Schedule.{IsBounded, Comes, run-new_doctor}
use venn.Stores.Head.{Atomic, new_atomic, current, put}
use venn.Stores.Head.Laws.{put-current}
use venn.Tests.Hex.{hexutil}
use venn.Tests.Data.{mainnet, counter}

abbrev fresh_doctor : Doctor
fresh_doctor = new_doctor (pos 1) "mainnet" "node" (pos 1_000_000_000) (pos 60_000_000_000)

check-healthy_run : ((check hexutil counter (fresh_doctor, 0)).0.health ≡ healthy) ↔ (
    ((n : ℕ) × ((do_uint64 hexutil counter "eth_blockNumber" 0).0 ≡ ok n))
    × Confirms
        (do_uint64 hexutil counter "eth_chainId"
          (do_uint64 hexutil counter "eth_blockNumber" 0).1).0
        fresh_doctor)
check-healthy_run = check-healthy_iff hexutil counter fresh_doctor 0

can_use-answers_example :
    ((can_use hexutil counter 2 (fresh_doctor, 0)).0
      ≡ some (is_healthy (can_use hexutil counter 2 (fresh_doctor, 0)).1.0.health))
    × ((can_use hexutil counter 2 (fresh_doctor, 0)).1.0.health ≢ unknown)
can_use-answers_example = can_use-answers hexutil counter fresh_doctor 0

abbrev morning : List Event
morning =
    chain_answer (ok 1) ∷ expires ∷ asked ∷ expires ∷ ticks ∷ no_block (plain "down") ∷ expires ∷ []

run-new_doctor_example :
    let (phase, d) =
      run morning checking
        (new_doctor (pos 1) "mainnet" "node" (pos 1_000_000_000) (pos 60_000_000_000)) in
    IsBounded 1_000_000_000 60_000_000_000 d × Comes phase d
run-new_doctor_example =
    run-new_doctor (pos 1) "mainnet" "node" 1_000_000_000 60_000_000_000 morning (omega arith)
      (omega arith)

contains_ignore_case_run :
    (contains_ignore_case (codes "Rate Limited") (codes "limit") ≡ true)
    ↔ Occurs (codes "limit") (codes "Rate Limited")
contains_ignore_case_run =
    contains_ignore_case_iff (codes "Rate Limited") (codes "limit")
      (omega arith, (omega arith, (omega arith, (omega arith, (omega arith, tt)))))

abbrev too_many : Error
too_many = rpc_error (negsuc 32004) "slow down"

abbrev made : Atomic
made = record new_atomic { heads = some (("mainnet", 7) ∷ []) }

abbrev raised : Atomic
raised = record new_atomic { heads = some (("mainnet", 9) ∷ []) }

put_run : put mainnet 9 made ≡ some (ok 7, raised)
unfolding put current venn.Prelude.Maps.lookup venn.Prelude.Maps.insert venn.Stores.Head.offer_all
put_run = refl

put-current_run :
    (ok 7 ≡ ok (current "mainnet" made))
    × (current "mainnet" raised ≡ (
        if str_eq "mainnet" "mainnet"
        then max (current "mainnet" made) 9
        else current "mainnet" made))
put-current_run = put-current mainnet 9 made raised (ok 7) "mainnet" put_run
