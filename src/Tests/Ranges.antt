-- ===== src/Tests/Ranges.antt =====
-- The middlewares of svc/node/middlewares at concrete inputs.
use venn.Prelude.{ℕ, ◌≡◌, ◌↔◌, ◌⊎◌, refl, Bool, true, Option, none, some, List, [], ◌∷◌, arith, set}
use venn.Prelude.Int.{ℤ, pos, negsuc, ◌+ℤ◌, ◌≤ℤ◌}
use venn.Rpc.{Json, str, arr, obj, end, of_list, to_list, doc, raw_list, Chain, Request, Result, ok}
use venn.Ethtypes.BlockNumber.{latest, unmarshal}
use venn.Ethtypes.Filter.{FilterQuery}
use venn.Middlewares.LookBack.{BlockLookBack, effective, validate}
use venn.Middlewares.LookBack.Accepted.{validate-accepts_iff}
use venn.Middlewares.HeadReplacer.{replace}
use venn.Middlewares.HeadReplacer.Latest.{replace-latest}
use venn.Tests.Hex.{hexutil}
use venn.Tests.Data.{mainnet}

-- The head store of a program whose state is the head.
abbrev head : Chain → ℕ → Result ℕ
head chain s = ok s

abbrev limits : BlockLookBack
limits = record { chain_limit = pos 100; remote_limit = some (pos 50) }

effective_run : effective limits ≡ pos 50
unfolding effective
effective_run = refl

validate-accepts_iff_example :
    (validate head limits (some mainnet) (pos 960) 1000 ≡ none)
    ↔ ((pos 960 ≤ℤ negsuc 0) ⊎ ((pos 1 ≤ℤ pos 960) × (pos 1000 ≤ℤ pos 960 +ℤ pos 50)))
validate-accepts_iff_example =
    validate-accepts_iff head limits mainnet 1000 1000 50 (pos 960) effective_run (omega arith)
      (omega arith) (omega arith) (omega arith) refl

abbrev params : List Json
params = obj end ∷ str "latest" ∷ str "0x10" ∷ []

abbrev call : Request
call = record { method = "eth_call"; params = doc (arr (of_list params)); chain = some mainnet }

call_params : raw_list call.params ≡ some params
unfolding raw_list to_list of_list
call_params = refl

latest_read : unmarshal hexutil (str "latest") ≡ some latest
unfolding unmarshal
latest_read = refl

number_read : unmarshal hexutil (str "0x10") ≡ some (pos 16)
unfolding unmarshal
number_read = refl

replace-latest_example :
    (new : Json) × (replace hexutil head call 1 1000
      ≡ ok (record call { params = doc (arr (of_list (set params 1 new))) }))
    × (unmarshal hexutil new ≡ some (pos 1000))
replace-latest_example =
    replace-latest hexutil head call mainnet (arr (of_list params)) params 1 1000 (str "latest")
      1000 refl refl call_params refl latest_read refl (omega arith) (omega arith)

abbrev query : Option ℤ → FilterQuery Bool Bool
query from = record {
  block_hash = none;
  from_block = from;
  to_block = none;
  addresses = true ∷ [];
  topics = [];
}
