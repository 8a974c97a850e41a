-- ===== src/Middlewares/HeadReplacer.antt =====
-- svc/node/middlewares/headreplacer/headreplacer.go: block tags become the stored head.
pub mod Latest
use Prim.Native.String.{◌++◌ as ◌⧺◌}
use venn.Prelude.{
  ℕ, zero, suc, ◌+◌, String, Bool, true, false, Option, none, some, List, [], ◌∷◌, length,
  get_elem?, set, ltb, ◌||◌, ◌==◌, if◌then◌else◌, str_eq,
}
use venn.Prelude.Int.{ℤ, pos, negsuc, eqb_ℤ}
use venn.Prelude.Decimal.{itoa}
use venn.Rpc.{
  Json, arr, nil, cons, of_list, Params, absent, malformed, doc, raw_list, Error, invalid_params,
  decode_error, Chain, Request, Reply, Value, quantity, text, sent, failed, no_chain, Handler,
  forward, Hexutil, Result, ok, err,
}
use venn.Ethtypes.BlockNumber.{latest, unmarshal, marshal_block, to_int64, to_uint64}
use venn.Ethtypes.Filter.{FilterQuery, decode_query, marshal_query}
use venn.Middlewares.LookBack.{decode_list, expected_one}

abbrev pub or_latest : Option ℤ → ℤ
or_latest none = latest
or_latest (some bn) = bn

-- The `switch` of `toNumericBlockNumber`, where `ok none` is `passthrough`.
abbrev pub head_number : Result ℕ → Result (Option ℤ)
head_number (err e) = err e
head_number (ok head) = if head == 0 then ok none else ok (some (to_int64 head))

module _ {S : Type 0} (get : Chain → S → Result ℕ) where
  unfoldable pub to_numeric : Chain → ℤ → S → Result (Option ℤ)
  to_numeric chain bn s = if eqb_ℤ bn latest then head_number (get chain s) else ok none

module _ (hex : Hexutil) {S : Type 0} (get : Chain → S → Result ℕ) where
  abbrev pub with_number : Request → List Json → ℕ → Result (Option ℤ) → Result Request
  with_number r params index (err e) = err e
  with_number r params index (ok none) = ok r
  with_number r params index (ok (some number)) =
      ok (record r { params = doc (arr (of_list (set params index (marshal_block hex number)))) })

  abbrev pub replace_decoded : Request → List Json → ℕ → Chain → S → Option ℤ → Result Request
  replace_decoded r params index chain s none = err decode_error
  replace_decoded r params index chain s (some bn) =
      with_number r params index (to_numeric get chain bn s)

  abbrev pub replace_listed : Request → ℕ → Chain → S → Option (List Json) → Result Request
  replace_listed r index chain s none = err decode_error
  replace_listed r index chain s (some params) = elim (get_elem? params index) [
    | none ↦ err (invalid_params ("need at least " ⧺ itoa (pos (index + 1)) ⧺ " parameters"))
    | some j ↦ replace_decoded r params index chain s (unmarshal hex j)
  ]

  -- `ReplaceBlockNumberInRequest`
  unfoldable pub replace : Request → ℕ → S → Result Request
  replace r index s = elim r.chain [
    | none ↦ err no_chain
    | some chain ↦ elim r.params [
      | absent ↦ err (invalid_params "expected parameters")
      | _ ↦ replace_listed r index chain s (raw_list r.params)
    ]
  ]

  abbrev pub both_numbers :
      Request
      → FilterQuery hex.Address hex.Hash
      → Result (Option ℤ)
      → Result (Option ℤ)
      → Result Request
  both_numbers r q (err e) to = err e
  both_numbers r q (ok from) (err e) = err e
  both_numbers r q (ok (some from)) (ok (some to)) = ok (record r {
    params = doc (
        arr
          (cons (marshal_query hex (record q { from_block = some from; to_block = some to })) nil));
  })
  both_numbers r q (ok _) (ok _) = ok r

  -- The case `eth_getLogs` for its one argument.
  unfoldable pub replace_range :
      Request → FilterQuery hex.Address hex.Hash → Chain → S → Result Request
  replace_range r q chain s = elim q.block_hash [
    | some h ↦ ok r
    | none ↦
        both_numbers r q (to_numeric get chain (or_latest q.from_block) s)
          (to_numeric get chain (or_latest q.to_block) s)
  ]

  unfoldable pub replace_logs : Request → Chain → S → Result Request
  replace_logs r chain s = elim (raw_list r.params) [
    | none ↦ err decode_error
    | some params ↦ elim (decode_list (decode_query hex) params) [
      | none ↦ err decode_error
      | some (q ∷ []) ↦ replace_range r q chain s
      | some _ ↦ err expected_one
    ]
  ]

  abbrev pub head_reply : Result ℕ → Reply
  head_reply (err e) = record { result = quantity 0; error = some e }
  head_reply (ok head) = sent (quantity head)

  unfoldable pub serve : Handler S → Handler S
  unfolding forward
  serve next r s =
      let m = r.method in
      elim r.chain [
        | none ↦ (failed no_chain ∷ [], s)
        | some chain ↦
            if str_eq m "eth_chainId"
            then (sent (quantity (to_uint64 chain.id)) ∷ [], s)
            else if str_eq m "net_version"
            then (sent (text (itoa chain.id)) ∷ [], s)
            else if str_eq m "eth_blockNumber"
            then (head_reply (get chain s) ∷ [], s)
            else if str_eq m "eth_getBlockByNumber" || str_eq m "eth_getBlockReceipts"
            then forward next (replace r 0 s) s
            else if str_eq m "eth_call"
            then forward next (replace r 1 s) s
            else if str_eq m "eth_getLogs"
            then forward next (replace_logs r chain s) s
            else next r s
      ]
