-- ===== src/Middlewares/Cacher.antt =====
-- svc/node/atoms/cacher/cacher.go: blocks, receipts and logs from the block store.
pub mod Answers
use Prim.Native.String.{◌++◌ as ◌⧺◌}
use venn.Prelude.{
  ℕ, String, Bool, true, false, Option, none, some, List, [], ◌∷◌, not, ◌&&◌, if◌then◌else◌, str_eq,
}
use venn.Prelude.Int.{ℤ, pos, negsuc, ◌-ℤ◌, ltb_ℤ}
use venn.Prelude.Int64.{wrap}
use venn.Rpc.{
  Json, bool, arr, nil, cons, of_list, raw_list, decode_bool, is_null, Error, plain, invalid_params,
  decode_error, Chain, Request, Reply, Value, raw, sent, failed, no_chain, Handler, Hexutil, Result,
  ok, err, do_raw,
}
use venn.Ethtypes.BlockNumber.{unmarshal, marshal_block, to_uint64}
use venn.Ethtypes.Filter.{FilterQuery, decode_query}
use venn.Ethtypes.Logs.{compile_filter}
use venn.Stores.Blocks.{
  EntryType, block_header, logs, receipts, Entry, Query, range, hash, BlockStore,
}
use venn.Stores.Heads.{Keys, Head, read_head}
use venn.Middlewares.LookBack.{decode_list, expected_one}
use venn.Middlewares.Blocks.{remove_details}
use venn.Middlewares.LogFilter.{Reading, panicked, refused, got, filter_entries}

abbrev pub max_log_range : ℕ
max_log_range = 10

abbrev pub expected_two : Error
expected_two = invalid_params "expected 2 params"

abbrev pub block_keys : Keys
block_keys = record { hash = "hash"; number = some "number"; parent = some "parentHash" }

abbrev pub failed_to_remove : String
failed_to_remove = "failed to remove transaction details"

-- A block for the client, with its transactions or with their hashes only.
-- `failure` is the text of the error.
unfoldable pub present : String → Bool → Json → Reply
present failure true block = sent (raw block)
present failure false block = elim (remove_details block) [
  | none ↦ failed (plain failure)
  | some j ↦ sent (raw j)
]

unfoldable pub answer_block : {H : Type 0} → String → Bool → Result (List (Entry H)) → Reply
unfolding present
answer_block failure details (err e) = failed e
answer_block failure details (ok (e ∷ [])) = present failure details e.value
answer_block failure details (ok _) = sent Value.nothing

unfoldable pub answer_entry : {H : Type 0} → Result (List (Entry H)) → Reply
answer_entry (err e) = failed e
answer_entry (ok (e ∷ [])) = sent (raw e.value)
answer_entry (ok _) = sent Value.nothing

-- `json.Unmarshal` into the two parameters of a request for a block.
unfoldable pub block_params : {A : Type 0} → (Json → Option A) → Request → Result (A × Bool)
block_params decode r = elim (raw_list r.params) [
  | none ↦ err decode_error
  | some (first ∷ second ∷ []) ↦ elim (decode first) [
    | none ↦ err decode_error
    | some a ↦ elim (decode_bool second) [
      | none ↦ err decode_error
      | some details ↦ ok (a, details)
    ]
  ]
  | some _ ↦ err expected_two
]

-- `json.Unmarshal` into a slice, of which one element is expected.
unfoldable pub one_param : {A : Type 0} → (Json → Option A) → Request → Result A
one_param decode r = elim (raw_list r.params) [
  | none ↦ err decode_error
  | some params ↦ elim (decode_list decode params) [
    | none ↦ err decode_error
    | some (a ∷ []) ↦ ok a
    | some _ ↦ err expected_one
  ]
]

-- What a handler sends, and the next state; `none` is a panic.
abbrev pub Outcome : Type 0 → Type 0
Outcome S = Option (List Reply × S)

module _ (hex : Hexutil) (dec_a : Discrete hex.Address) (dec_h : Discrete hex.Hash) {S : Type 0}
    (store : BlockStore hex.Hash S) where
  unfoldable pub stored_block : String → Chain → Query hex.Hash → Bool → S → List Reply × S
  unfolding answer_block
  stored_block failure chain query details s =
      let (found, s') = store.get chain block_header query s in
      (answer_block failure details found ∷ [], s')

  -- The block is stored whatever it is, also if the remote has answered null.
  unfoldable pub keep_block : Chain → Bool → Json → Head hex.Hash → S → List Reply × S
  unfolding present
  keep_block chain details block head s =
      let (refusal, s') =
        store.put chain block_header
          (record {
            block_hash = head.block_hash;
            block_number = head.block_number;
            parent_hash = some head.parent_hash;
            value = block;
          }
            ∷ [])
          s in
      elim refusal [
        | some e ↦ (failed e ∷ [], s')
        | none ↦ (
          present failed_to_remove (if not details && not (is_null block) then false else true)
                block
              ∷ [],
          s',
        )
      ]

  abbrev pub read_and_keep : Chain → Bool → Result Json → S → List Reply × S
  read_and_keep chain details (err e) s =
      (failed (record e { text = "getting block from remote: " ⧺ e.text }) ∷ [], s)
  read_and_keep chain details (ok block) s = elim (read_head hex block_keys block) [
    | none ↦ (failed decode_error ∷ [], s)
    | some head ↦ keep_block chain details block head s
  ]

  abbrev pub block_args : ℤ → Json
  block_args bn = arr (cons (marshal_block hex bn) (cons (bool true) nil))

  -- The block of a tag comes from the remote.
  unfoldable pub remote_block : Handler S → Chain → ℤ → Bool → S → List Reply × S
  unfolding keep_block
  remote_block next chain bn details s =
      let (block, s') = do_raw hex next (some chain) "eth_getBlockByNumber" (block_args bn) s in
      read_and_keep chain details block s'

  abbrev pub by_number : Handler S → Chain → Result (ℤ × Bool) → S → List Reply × S
  by_number next chain (err e) s = (failed e ∷ [], s)
  by_number next chain (ok (pos n, details)) s =
      stored_block "failed removing transaction details" chain (range n n) details s
  by_number next chain (ok (negsuc n, details)) s = remote_block next chain (negsuc n) details s

  abbrev pub by_hash : Chain → Result (hex.Hash × Bool) → S → List Reply × S
  by_hash chain (err e) s = (failed e ∷ [], s)
  by_hash chain (ok (h, details)) s = stored_block failed_to_remove chain (hash h) details s

  abbrev pub block_receipts : Handler S → Request → Chain → Result ℤ → S → List Reply × S
  block_receipts next r chain (err e) s = (failed e ∷ [], s)
  block_receipts next r chain (ok (pos n)) s =
      let (found, s') = store.get chain receipts (range n n) s in (answer_entry found ∷ [], s')
  block_receipts next r chain (ok (negsuc n)) s = next r s

  -- Which entries `eth_getLogs` reads: none where the request goes to the remote.
  unfoldable pub logs_query : FilterQuery hex.Address hex.Hash → Option (Query hex.Hash)
  logs_query q = elim q.block_hash [
    | some h ↦ some (hash h)
    | none ↦ elim q.from_block [
      | none ↦ none
      | some from ↦ elim q.to_block [
        | none ↦ none
        | some to ↦
            if ltb_ℤ (pos max_log_range) (wrap (to -ℤ from))
            then none
            else some (range (to_uint64 from) (to_uint64 to))
      ]
    ]
  ]

  abbrev pub answer_logs : Reading (List Json) → S → Outcome S
  answer_logs panicked s = none
  answer_logs refused s = some (failed (plain "failed to filter logs") ∷ [], s)
  answer_logs (got js) s = some (sent (raw (arr (of_list js))) ∷ [], s)

  abbrev pub filter_found :
      FilterQuery hex.Address hex.Hash → Result (List (Entry hex.Hash)) → S → Outcome S
  filter_found q (err e) s = some (failed e ∷ [], s)
  filter_found q (ok entries) s =
      answer_logs
        (filter_entries hex dec_a dec_h (compile_filter dec_a dec_h q.addresses q.topics) entries) s

  unfoldable pub stored_logs :
      Chain → FilterQuery hex.Address hex.Hash → Query hex.Hash → S → Outcome S
  stored_logs chain q query s =
      let (found, s') = store.get chain logs query s in filter_found q found s'

  unfoldable pub get_logs :
      Handler S → Request → Chain → Result (FilterQuery hex.Address hex.Hash) → S → Outcome S
  unfolding logs_query stored_logs
  get_logs next r chain (err e) s = some (failed e ∷ [], s)
  get_logs next r chain (ok q) s = elim (logs_query q) [
    | none ↦ some (next r s)
    | some query ↦ stored_logs chain q query s
  ]

  unfoldable pub serve : Handler S → Request → S → Outcome S
  unfolding stored_block remote_block get_logs block_params one_param
  serve next r s =
      let m = r.method in
      elim r.chain [
        | none ↦ some (failed no_chain ∷ [], s)
        | some chain ↦
            if str_eq m "eth_getBlockByNumber"
            then some (by_number next chain (block_params (unmarshal hex) r) s)
            else if str_eq m "eth_getBlockByHash"
            then some (by_hash chain (block_params hex.decode_hash r) s)
            else if str_eq m "eth_getBlockReceipts"
            then some (block_receipts next r chain (one_param (unmarshal hex) r) s)
            else if str_eq m "eth_getLogs"
            then get_logs next r chain (one_param (decode_query hex) r) s
            else some (next r s)
      ]
