-- ===== src/Middlewares/LookBack.antt =====
-- svc/node/middlewares/blockLookBack/blockLookBack.go: no request for a block that is too old.
pub mod Accepted
use Prim.Native.String.{◌++◌ as ◌⧺◌}
use venn.Prelude.{
  ℕ, zero, suc, ◌+◌, ◌-◌, ◌^◌, String, Bool, true, false, ◌&&◌, ◌||◌, not, Option, none, some, List,
  [], ◌∷◌, length, get_elem?, ltb, leb, ◌==◌, if◌then◌else◌, str_eq,
}
use venn.Prelude.Int.{ℤ, pos, negsuc, eqb_ℤ, ltb_ℤ}
use venn.Prelude.Decimal.{itoa}
use venn.Rpc.{
  Json, Params, raw_list, Error, plain, invalid_params, decode_error, Chain, Request, Reply, failed,
  Handler, Hexutil, Result, ok, err, no_chain,
}
use venn.Ethtypes.BlockNumber.{unmarshal, earliest, to_uint64}
use venn.Ethtypes.Filter.{FilterQuery, cons_some, decode_query}

-- The limits of the configuration; a middleware for a chain has none of a remote.
pub record BlockLookBack : Type 0 where
  pub chain_limit : ℤ
  pub remote_limit : Option ℤ

-- `getEffectiveLookBack`
unfoldable pub effective : BlockLookBack → ℤ
effective m = elim m.remote_limit [
  | none ↦ m.chain_limit
  | some remote ↦
      if eqb_ℤ m.chain_limit (pos 0) && eqb_ℤ remote (pos 0)
      then pos 0
      else if eqb_ℤ remote (pos 0)
      then m.chain_limit
      else if eqb_ℤ m.chain_limit (pos 0)
      then remote
      else if ltb_ℤ m.chain_limit remote
      then m.chain_limit
      else remote
]

-- `a - b` of a `uint64`
unfoldable pub sub_uint64 : ℕ → ℕ → ℕ
sub_uint64 a b = if leb b a then a - b else 2 ^ 64 + a - b

-- The condition of `validateBlockNumber`.
unfoldable pub is_too_old : ℤ → ℕ → ℤ → Bool
unfolding sub_uint64
is_too_old bn head limit =
    eqb_ℤ bn earliest
    || (ltb_ℤ (pos 0) bn && ltb (to_uint64 bn) (sub_uint64 head (to_uint64 limit)))

unfoldable too_old : ℤ → ℕ → ℤ → Error
too_old bn head limit = plain (
    "block number, "
    ⧺ itoa bn
    ⧺ ", is too old (max lookback: "
    ⧺ itoa limit
    ⧺ " blocks from head: "
    ⧺ itoa (pos head)
    ⧺ ")")

-- `json.Unmarshal` into a slice of values with decoders of their own.
unfoldable pub decode_list {ℓ} : {A : Type ℓ} → (Json → Option A) → List Json → Option (List A)
decode_list f [] = some []
decode_list f (j ∷ js) = cons_some (f j) (decode_list f js)

module _ {S : Type 0} (get : Chain → S → Result ℕ) (m : BlockLookBack) where
  -- `validateBlockNumber`
  unfoldable pub validate : Option Chain → ℤ → S → Option Error
  unfolding too_old
  validate chain bn s =
      let limit = effective m in
      if eqb_ℤ limit (pos 0) then none else elim chain [
        | none ↦ some no_chain
        | some c ↦ elim (get c s) [
          | err e ↦ some e
          | ok head ↦ if is_too_old bn head limit then some (too_old bn head limit) else none
        ]
      ]

  abbrev validate_decoded : Option Chain → Option ℤ → S → Option Error
  validate_decoded chain none s = some decode_error
  validate_decoded chain (some bn) s = validate chain bn s

  abbrev validate_from : Option Chain → Option ℤ → S → Option Error
  validate_from chain none s = none
  validate_from chain (some bn) s = validate chain bn s

abbrev pub expected_one : Error
expected_one = invalid_params "expected 1 parameter"

module _ (hex : Hexutil) {S : Type 0} (get : Chain → S → Result ℕ) (m : BlockLookBack) where
  -- `check2Param` with n = 2 and `check3Param` with n = 3.
  unfoldable pub check_param : ℕ → ℕ → Request → S → Option Error
  check_param n index r s = elim (raw_list r.params) [
    | none ↦ some decode_error
    | some params ↦ if ltb (length params) n then none else elim (get_elem? params index) [
      | none ↦ none
      | some j ↦ validate_decoded get m r.chain (unmarshal hex j) s
    ]
  ]

  unfoldable pub check_1_param : Request → S → Option Error
  unfolding decode_list
  check_1_param r s = elim (raw_list r.params) [
    | none ↦ some decode_error
    | some params ↦ elim (decode_list (unmarshal hex) params) [
      | none ↦ some decode_error
      | some (bn ∷ []) ↦ validate get m r.chain bn s
      | some _ ↦ some expected_one
    ]
  ]

  unfoldable pub check_get_logs : Request → S → Option Error
  unfolding decode_list
  check_get_logs r s = elim (raw_list r.params) [
    | none ↦ some decode_error
    | some params ↦ elim (decode_list (decode_query hex) params) [
      | none ↦ some decode_error
      | some (q ∷ []) ↦ validate_from get m r.chain q.from_block s
      | some _ ↦ some expected_one
    ]
  ]

  -- The `switch` of `Middleware`.
  unfoldable pub check : Request → S → Option Error
  check r s =
      let m = r.method in
      if str_eq m "eth_getBlockByNumber" || str_eq m "eth_getTransactionByBlockNumberAndIndex"
      then check_param 2 0 r s
      else if str_eq m "eth_getTransactionCount"
          || str_eq m "eth_getBalance"
          || str_eq m "eth_getCode"
          || str_eq m "eth_call"
          || str_eq m "eth_estimateGas"
          || str_eq m "eth_createAccessList"
      then check_param 2 1 r s
      else if str_eq m "eth_getStorageAt"
      then check_param 3 2 r s
      else if str_eq m "eth_getBlockReceipts"
          || str_eq m "eth_getBlockTransactionCountByNumber"
          || str_eq m "eth_getUncleCountByBlockNumber"
          || str_eq m "debug_getRawHeader"
          || str_eq m "debug_getRawBlock"
      then check_1_param r s
      else if str_eq m "eth_getLogs"
      then check_get_logs r s
      else none

  unfoldable pub serve : Handler S → Handler S
  serve next r s =
      let pass = next r s in elim (check r s) [ some e ↦ (failed e ∷ [], s) | none ↦ pass ]
