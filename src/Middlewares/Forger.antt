-- ===== src/Middlewares/Forger.antt =====
-- svc/node/middlewares/forger/forger.go: the receipts of a block from the block and its logs.
pub mod Placed
use venn.Prelude.{
  ℕ, String, Bool, true, false, not, ◌&&◌, ◌||◌, Option, none, some, List, [], ◌∷◌, map,
  if◌then◌else◌, str_eq,
}
use venn.Prelude.Int.{ℤ, pos}
use mathlib.Core.Logic.{ite}
use venn.Rpc.{
  Json, null, bool, arr, obj, nil, cons, Fields, end, field, to_list, of_list, raw_list, Params,
  Error, decode_error, Chain, Request, Reply, raw, sent, failed, Handler, Hexutil, Result, ok, err,
  do_raw,
}
use venn.Ethtypes.BlockNumber.{unmarshal, marshal_block}
use venn.Ethtypes.Filter.{key_is, empty_query, marshal_query}

-- `json.Unmarshal` into a slice of raw messages.
unfoldable pub raw_slice : Json → Option (List Json)
unfolding to_list
raw_slice null = some []
raw_slice (arr xs) = some (to_list xs)
raw_slice _ = none

-- The field `transactions` of the block; the last one stays.
unfoldable pub scan_transactions : Fields → List Json → Option (List Json)
unfolding raw_slice
scan_transactions end txs = some txs
scan_transactions (field k v fs) txs =
    let found : Option (List Json) = elim (raw_slice v) [
      | none ↦ none
      | some xs ↦ scan_transactions fs xs
    ] in
    let rest = scan_transactions fs txs in if key_is "transactions" k then found else rest

unfoldable pub transactions_of : Json → Option (List Json)
unfolding scan_transactions
transactions_of null = some []
transactions_of (obj fs) = scan_transactions fs []
transactions_of _ = none

-- Which fields of a transaction a receipt keeps under their names.
unfoldable pub is_kept : String → Bool
is_kept k =
    str_eq k "blockHash"
    || str_eq k "transactionIndex"
    || str_eq k "to"
    || str_eq k "from"
    || str_eq k "type"
    || str_eq k "blockNumber"

module _ (hex : Hexutil) where
  -- The hash that is decoded of one log, and whether that was without an error.
  unfoldable pub scan_detail : Fields → hex.Hash → Bool → hex.Hash × Bool
  scan_detail end h fine = (h, fine)
  scan_detail (field k v fs) h fine =
      let found : hex.Hash × Bool = elim (hex.decode_hash v) [
        | none ↦ scan_detail fs h false
        | some h' ↦ scan_detail fs h' fine
      ] in
      let rest = scan_detail fs h fine in if key_is "transactionHash" k then found else rest

  unfoldable pub detail : Json → hex.Hash × Bool
  unfolding scan_detail
  detail (obj fs) = scan_detail fs hex.zero_hash true
  detail null = (hex.zero_hash, true)
  detail _ = (hex.zero_hash, false)

  -- A log with its transaction's hash.
  pub record Log : Type 0 where
    pub document : Json
    pub hash : hex.Hash

  abbrev pub detailed : Json → Log
  detailed log = record { document = log; hash = (detail log).0 }

  unfoldable pub all_fine : List Json → Bool
  unfolding detail
  all_fine [] = true
  all_fine (log ∷ logs) = (detail log).1 && all_fine logs

  pub record Receipt : Type 0 where
    pub fields : Fields
    pub hash : hex.Hash
    pub logs : List Json

  abbrev pub put_hash : Json → Option (Fields × hex.Hash) → Option (Fields × hex.Hash)
  put_hash v none = none
  put_hash v (some (fs, h)) = some (field "transactionHash" v fs, h)

  abbrev pub put_kept : String → Json → Option (Fields × hex.Hash) → Option (Fields × hex.Hash)
  put_kept k v none = none
  put_kept k v (some (fs, h)) = some (field k v fs, h)

  -- The loop over the fields of a transaction: what it writes, and the hash at its end.
  unfoldable pub scan_transaction : Fields → hex.Hash → Option (Fields × hex.Hash)
  unfolding is_kept
  scan_transaction end h = some (end, h)
  scan_transaction (field k v fs) h =
      let as_hash : Option (Fields × hex.Hash) = elim (hex.decode_hash v) [
        | none ↦ none
        | some h' ↦ put_hash v (scan_transaction fs h')
      ] in
      let as_kept = put_kept k v (scan_transaction fs h) in
      let rest = scan_transaction fs h in
      if str_eq k "hash" then as_hash else if is_kept k then as_kept else rest

  unfoldable pub read_transaction : Json → Option (Fields × hex.Hash)
  unfolding scan_transaction
  read_transaction (obj fs) = scan_transaction fs hex.zero_hash
  read_transaction _ = none

  module _ (dec : Discrete hex.Hash) where
    -- The loop over the logs of the block.
    unfoldable pub select : hex.Hash → List Log → List Json
    select h [] = []
    select h (log ∷ logs) =
        let rest = select h logs in ite (dec log.hash h) (log.document ∷ rest) rest

    abbrev pub put_receipt :
        List Log → Option (Fields × hex.Hash) → Option (List Receipt) → Option (List Receipt)
    put_receipt logs none rest = none
    put_receipt logs (some (fs, h)) none = none
    put_receipt logs (some (fs, h)) (some rs) =
        some (record { fields = fs; hash = h; logs = select h logs } ∷ rs)

    -- The loop over the transactions.
    unfoldable pub receipts : List Log → List Json → Option (List Receipt)
    unfolding read_transaction
    receipts logs [] = some []
    receipts logs (tx ∷ txs) = put_receipt logs (read_transaction tx) (receipts logs txs)

  abbrev pub snoc_field : Fields → String → Json → Fields
  snoc_field end k v = field k v end
  snoc_field (field j w fs) k v = field j w (snoc_field fs k v)

  abbrev pub receipt_json : Receipt → Json
  receipt_json r = obj (snoc_field r.fields "logs" (arr (of_list r.logs)))

  abbrev pub receipts_reply : Option (List Receipt) → Reply
  receipts_reply none = failed decode_error
  receipts_reply (some rs) = sent (raw (arr (of_list (map receipt_json rs))))

  -- `[1]ethtypes.BlockNumber`: what is missing is 0, and what is more is not read.
  unfoldable pub first_number : Params → Option ℤ
  first_number params = elim (raw_list params) [
    | none ↦ none
    | some [] ↦ some (pos 0)
    | some (j ∷ js) ↦ unmarshal hex j
  ]

  abbrev pub logs_args : ℤ → Json
  logs_args bn = arr (
      cons (marshal_query hex (record empty_query { from_block = some bn; to_block = some bn }))
        nil)

  abbrev pub block_args : ℤ → Json
  block_args bn = arr (cons (marshal_block hex bn) (cons (bool true) nil))

  module _ (dec : Discrete hex.Hash) {S : Type 0} (next : Handler S) where
    abbrev pub first_error : Result Json → Result Json → Result (Json × Json)
    first_error (err e) b = err e
    first_error (ok a) (err e) = err e
    first_error (ok a) (ok b) = ok (a, b)

    abbrev pub swapped : Result (Json × Json) → Result (Json × Json)
    swapped (err e) = err e
    swapped (ok (a, b)) = ok (b, a)

    -- The two requests, of which either may come first; both are made. The logs, then the block.
    unfoldable pub fetch : Bool → Option Chain → ℤ → S → Result (Json × Json) × S
    fetch true chain bn s =
        let (logs, s1) = do_raw hex next chain "eth_getLogs" (logs_args bn) s in
        let (block, s2) = do_raw hex next chain "eth_getBlockByNumber" (block_args bn) s1 in
        (first_error logs block, s2)
    fetch false chain bn s =
        let (block, s1) = do_raw hex next chain "eth_getBlockByNumber" (block_args bn) s in
        let (logs, s2) = do_raw hex next chain "eth_getLogs" (logs_args bn) s1 in
        (swapped (first_error block logs), s2)

    -- A hash of a log that cannot be decoded is sent as an error, and then the receipts are sent too.
    unfoldable pub forge : List Json → List Json → List Reply
    unfolding all_fine receipts
    forge txs logs =
        let answer = receipts_reply (receipts dec (map detailed logs) txs) in
        if all_fine logs then answer ∷ [] else failed decode_error ∷ answer ∷ []

    abbrev pub forge_fetched : Result (Json × Json) → List Reply
    forge_fetched (err e) = failed e ∷ []
    forge_fetched (ok (logs, block)) = elim (transactions_of block) [
      | none ↦ failed decode_error ∷ []
      | some txs ↦ elim (raw_slice logs) [
        | none ↦ failed decode_error ∷ []
        | some ls ↦ forge txs ls
      ]
    ]

    abbrev pub block_receipts : Bool → Option Chain → Option ℤ → S → List Reply × S
    block_receipts logs_first chain none s = (failed decode_error ∷ [], s)
    block_receipts logs_first chain (some bn) s =
        let (fetched, s') = fetch logs_first chain bn s in (forge_fetched fetched, s')

    abbrev pub is_forged : Option Chain → Bool
    is_forged none = false
    is_forged (some chain) = chain.forge_block_receipts

    unfoldable pub serve : Bool → Handler S
    unfolding fetch forge transactions_of
    serve logs_first r s =
        let pass = next r s in
        let forged = block_receipts logs_first r.chain (first_number r.params) s in
        if str_eq r.method "eth_getBlockReceipts" && is_forged r.chain then forged else pass
