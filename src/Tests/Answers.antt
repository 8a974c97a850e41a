-- ===== src/Tests/Answers.antt =====
-- svc/node/atoms/cacher/cacher.go at concrete inputs.
use venn.Ethtypes.Filter.RoundTrip.{decode-marshal_query}
use venn.Prelude.{
  ℕ, ◌+◌, ◌≡◌, refl, String, Bool, true, false, Option, none, some, List, [], ◌∷◌, arith, map,
  str_eq_iff, ◌≢◌,
}
use venn.Prelude.Int.{ℤ, pos, negsuc}
use venn.Rpc.{
  Json, null, bool, str, arr, obj, nil, cons, end, field, to_list, of_list, doc, raw_list,
  decode_bool, Chain, Request, raw, sent, Handler, Result, ok, do_raw,
}
use venn.Ethtypes.BlockNumber.{unmarshal}
use venn.Ethtypes.Filter.{FilterQuery, empty_query, decode_query, marshal_query}
use venn.Ethtypes.Logs.{LogAddressTopics, compile_filter, filter}
use venn.Stores.Blocks.{EntryType, logs, Entry, BlockStore}
use venn.Middlewares.Blocks.Stripped.{Transaction, block, document}
use venn.Middlewares.LogFilter.{Reading, panicked, got, read_log, raw_bytes, trim_prefix}
use venn.Middlewares.LogFilter.Kept.{all_logs}
use venn.Middlewares.Cacher.{serve, block_args}
use venn.Middlewares.Cacher.Answers.{serve-stored_block, serve-logs}
use venn.Tests.Hex.{hexutil}
use venn.Tests.Data.{mainnet, same_bool}

-- A block of two transactions, of which the second has no field but the hash.
abbrev transactions : List Transaction
transactions =
    record { before = field "from" (str "0xaa") end; hash = str "0x01"; after = end }
    ∷ record { before = end; hash = str "0x02"; after = end }
    ∷ []

abbrev full_block : Json
full_block = obj (
    field "number" (str "0x3e8") (
      field "transactions"
        (arr (
          cons (obj (field "from" (str "0xaa") (field "hash" (str "0x01") end)))
            (cons (obj (field "hash" (str "0x02") end)) nil)))
        end))

abbrev entry : Json → Entry Bool
entry j = record { block_hash = true; block_number = 1000; parent_hash = none; value = j }

-- The log of the address 1 and the hash 1.
abbrev log : Json
log = obj (
    field "address" (str "0x0000000000000000000000000000000000000001") (
      field "topics"
        (arr (cons (str "0x0000000000000000000000000000000000000000000000000000000000000001") nil))
        end))

abbrev found : EntryType → List (Entry Bool)
found logs = entry (arr (cons log nil)) ∷ []
found _ = entry full_block ∷ []

-- It counts its calls.
abbrev store : BlockStore Bool ℕ
store = record { get = λ c t q s. (ok (found t), s + 1); put = λ c t es s. (none, s + 100) }

abbrev ask : String → List Json → Request
ask m params = record { method = m; params = doc (arr (of_list params)); chain = some mainnet }

abbrev silent : Handler ℕ
silent r s = (sent (raw null) ∷ [], s + 10)

abbrev by_number : Request
by_number = ask "eth_getBlockByNumber" (str "0x3e8" ∷ bool false ∷ [])

abbrev by_tag : Request
by_tag = ask "eth_getBlockByNumber" (str "safe" ∷ bool false ∷ [])

number_params : raw_list by_number.params ≡ some (str "0x3e8" ∷ bool false ∷ [])
unfolding raw_list to_list of_list
number_params = refl

tag_params : raw_list by_tag.params ≡ some (str "safe" ∷ bool false ∷ [])
unfolding raw_list to_list of_list
tag_params = refl

number_read : unmarshal hexutil (str "0x3e8") ≡ some (pos 1000)
unfolding unmarshal
number_read = refl

tag_read : unmarshal hexutil (str "safe") ≡ some (negsuc 2)
unfolding unmarshal
tag_read = refl

no_details : decode_bool (bool false) ≡ some false
unfolding decode_bool
no_details = refl

full_block_lem :
    (entry full_block).value
    ≡ block (field "number" (str "0x3e8") end) (map document transactions) end
unfolding of_list
full_block_lem = refl

number_ne : ◌≢◌ {A = String} "number" "transactions"
number_ne e = cc ((str_eq_iff "number" "transactions").1 e)

from_ne : ◌≢◌ {A = String} "from" "hash"
from_ne e = cc ((str_eq_iff "from" "hash").1 e)

serve-stored_block_run :
    serve hexutil same_bool same_bool store silent by_number 0
    ≡ some (
      sent (raw (block (field "number" (str "0x3e8") end) (str "0x01" ∷ str "0x02" ∷ []) end)) ∷ [],
      1,
    )
serve-stored_block_run =
    serve-stored_block hexutil same_bool same_bool store silent by_number mainnet 0 1 refl
      (str "0x3e8") (bool false) 1000 (entry full_block) (field "number" (str "0x3e8") end) end
      transactions refl number_params number_read no_details refl full_block_lem (number_ne, tt) tt
      ((from_ne, tt), tt, (tt, tt, tt))

null_got :
    do_raw hexutil silent
      (some mainnet)
      "eth_getBlockByNumber"
      (block_args hexutil same_bool same_bool store (negsuc 2))
      0
    ≡ (ok null, 10)
unfolding do_raw venn.Rpc.intercept
null_got = refl

abbrev query : Option ℤ → FilterQuery Bool Bool
query to = record empty_query { from_block = some (pos 1000); to_block = to; addresses = true ∷ [] }

abbrev logs_request : Option ℤ → Request
logs_request to = ask "eth_getLogs" (marshal_query hexutil (query to) ∷ [])

logs_params :
    (to : Option ℤ)
    → raw_list (logs_request to).params ≡ some (marshal_query hexutil (query to) ∷ [])
unfolding raw_list to_list of_list
logs_params to = refl

query_read :
    decode_query hexutil (marshal_query hexutil (query (some (pos 1001))))
    ≡ some (query (some (pos 1001)))
query_read =
    decode-marshal_query hexutil (query (some (pos 1001))) (omega arith, omega arith)
      (omega arith, omega arith)

tag_query_read :
    decode_query hexutil (marshal_query hexutil (query (some (negsuc 0))))
    ≡ some (query (some (negsuc 0)))
tag_query_read =
    decode-marshal_query hexutil (query (some (negsuc 0))) (omega arith, omega arith)
      (omega arith, omega arith)

abbrev view : Json → LogAddressTopics Bool Bool
view j = record { address = true; topics = true ∷ [] }

log_read : read_log hexutil log ≡ got (view log)
unfolding read_log venn.Middlewares.LogFilter.read_address venn.Middlewares.LogFilter.read_topics
log_read = refl

log_items : arr (cons log nil) ≡ arr (of_list (log ∷ []))
unfolding of_list
log_items = refl

serve-logs_example :
    serve hexutil same_bool same_bool store silent (logs_request (some (pos 1001))) 0
    ≡ some (
      sent (
            raw (
              arr (
                of_list (
                  filter same_bool same_bool view
                    (compile_filter same_bool same_bool (true ∷ []) [])
                    (all_logs hexutil same_bool same_bool view ((log ∷ []) ∷ []))))))
          ∷ [],
      1,
    )
serve-logs_example =
    serve-logs hexutil same_bool same_bool store silent (logs_request (some (pos 1001))) mainnet 0 1
      refl (marshal_query hexutil (query (some (pos 1001)))) (query (some (pos 1001))) 1000 1001
      (entry (arr (cons log nil)) ∷ []) ((log ∷ []) ∷ []) view refl (logs_params (some (pos 1001)))
      query_read refl refl refl (omega arith) (omega arith) (omega arith) refl
      (log_items, (log_read, tt), tt)
