-- ===== src/Tests/Stacks.antt =====
-- The stack of a remote at concrete inputs.
use venn.Prelude.{ℕ, ◌≤◌, ◌≡◌, String, Bool, true, false, Option, none, some, List, [], ◌∷◌, length}
use venn.Prelude.Int.{ℤ, pos}
use venn.Rpc.{Chain, Result, ok}
use venn.Callcenter.Backer.{new_backer}
use venn.Callcenter.Doctor.{new_doctor}
use venn.Middlewares.LookBack.{BlockLookBack}
use venn.Middlewares.Target.{Target, target}
use venn.Middlewares.Target.Stack.{target-OneReply, target-head-le}
use venn.Tests.Hex.{hexutil}
use venn.Tests.Data.{request, node}

abbrev clock : ℕ → ℤ
clock s = pos 1_700_000_001_000_000_000

abbrev never : ℕ → Bool
never s = false

abbrev allow : ℕ → Bool × ℕ
allow s = (true, s)

abbrev head : Chain → ℕ → Result ℕ
head c s = ok 1000

abbrev methods : List (String × Bool)
methods = ("eth_sign", false) ∷ []

abbrev limit : Option BlockLookBack
limit = some (record { chain_limit = pos 100; remote_limit = none })

abbrev state : Target ℕ
state = (
  new_doctor (pos 1) "mainnet" "node" (pos 1_000_000_000) (pos 60_000_000_000),
  (
    record { old = pos 60_000_000_000; head = 900; updated = pos 1_699_999_000_000_000_000 },
    (new_backer (pos 60) (pos 1) (pos 8), (record { requests = 0; successes = [] }, 0)),
  ),
)

target-OneReply_example :
    length (target hexutil clock never allow head limit methods node request state).0 ≡ 1
target-OneReply_example =
    target-OneReply hexutil clock never allow head methods node limit request state

target-head-le_example :
    state.1.0.head
    ≤ (target hexutil clock never allow head limit methods node request state).1.1.0.head
target-head-le_example =
    target-head-le hexutil clock never allow head methods node limit request state
