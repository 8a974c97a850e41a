-- ===== src/Callcenter/Validator.antt =====
-- lib/callcenter/validator.go. Times are in nanoseconds from the Unix epoch.
pub mod Heads
pub mod Replies
use venn.Prelude.{
  ℕ, ◌+◌, ◌-◌, ◌*◌, ◌^◌, Bool, true, false, ◌&&◌, ◌||◌, Option, none, some, List, [], ◌∷◌, String,
  str_eq, ltb, ◌==◌, if◌then◌else◌,
}
use venn.Prelude.Int.{ℤ, pos, negsuc, ltb_ℤ, ◌-ℤ◌}
use venn.Prelude.Duration.{Duration, second}
use venn.Rpc.{
  Json, arr, str, obj, null, bool, Items, cons, nil, Fields, end, field, Params, doc, malformed,
  absent, is_null, Error, plain, invalid_params, err_head_old, err_head_backwards, Request, Value,
  nothing, raw, quantity, Reply, sent, failed, Handler, intercept, fresh, Hexutil, Result, ok, err,
  do_raw,
}

pub record Validator : Type 0 where
  pub old : Duration
  pub head : ℕ
  pub updated : ℤ

-- `time.Time{}`: the first of January of year 1.
abbrev pub zero_time : ℤ
zero_time = negsuc (62_135_596_800 * second - 1)

unfoldable pub new_validator : Duration → Validator
new_validator old = record { old = old; head = 0; updated = zero_time }

-- `updateHead`, with `now` as `time.Now()` reads. The difference of the times is exact, where `Time.Sub` stops at 292
-- years.
unfoldable pub update_head : ℕ → ℤ → ℤ → Validator → Option Error × Validator
update_head head updated now v =
    let seen = if ltb_ℤ updated v.updated then record v { updated = updated } else v in
    if ltb head v.head
    then (some err_head_backwards, v)
    else if ltb v.head head
    then (none, record v { head = head; updated = updated })
    else if ltb_ℤ v.old (now -ℤ seen.updated)
    then (some err_head_old, seen)
    else (none, seen)

-- `isQueryingEthGetBlockByNumberWithLatest`
unfoldable pub is_latest : Params → Bool
is_latest (doc (arr (cons (str s) _))) = str_eq s "latest"
is_latest _ = false

-- `time.Unix(int64(ts), 0)`
unfoldable pub unix : ℕ → ℤ
unix ts = if ltb ts (2 ^ 63) then pos (ts * second) else negsuc ((2 ^ 64 - ts) * second - 1)

-- `res == "null"` for a raw message, or nil.
unfoldable pub is_missing : Value → Bool
unfolding is_null
is_missing nothing = true
is_missing (raw j) = is_null j
is_missing _ = false

abbrev pub update_with : Result (ℕ × ℤ) → ℤ → Validator → Option Error × Validator
update_with (err e) now v = (some e, v)
update_with (ok (number, timestamp)) now v = update_head number timestamp now v

-- The check for an old head: an answer without error that is null is an old head.
abbrev pub missing_is_old : Value → Option Error → Option Error
missing_is_old result (some e) = some e
missing_is_old result none = if is_missing result then some err_head_old else none

-- What a latest block's deadline means: too slow is an old head.
abbrev pub slow_is_old : Bool → Option Error → Option Error
slow_is_old too_slow none = none
slow_is_old too_slow (some e) = if e.deadline && too_slow then some err_head_old else some e

abbrev pub latest_args : Json
latest_args = arr (cons (str "latest") (cons (bool false) nil))

-- The reply of `eth_blockNumber` to the block that was read.
abbrev pub answer_number : Result (ℕ × ℤ) → ℤ → Validator → Reply × Validator
answer_number (err e) now v = (failed e, v)
answer_number (ok (number, timestamp)) now v =
    let (error, v') = update_head number timestamp now v in
    (record { result = quantity number; error = error }, v')

module _ (hex : Hexutil) where
  -- The loop of `parseRawBlock` over the fields.
  unfoldable pub scan_block : Fields → ℕ → ℤ → Result (ℕ × ℤ)
  scan_block end number timestamp = ok (number, timestamp)
  scan_block (field k v fs) number timestamp =
      let as_number : Result (ℕ × ℤ) = elim (hex.decode_uint64 v) [
        | none ↦ err (plain "invalid block number")
        | some n ↦ scan_block fs n timestamp
      ] in
      let as_timestamp : Result (ℕ × ℤ) = elim (hex.decode_uint64 v) [
        | none ↦ err (plain "invalid timestamp")
        | some ts ↦ scan_block fs number (unix ts)
      ] in
      let rest = scan_block fs number timestamp in
      if str_eq k "number" then as_number else if str_eq k "timestamp" then as_timestamp else rest

  unfoldable pub parse_raw_block : Json → Result (ℕ × ℤ)
  unfolding scan_block
  parse_raw_block null = err err_head_old
  parse_raw_block (obj fs) = scan_block fs 0 zero_time
  parse_raw_block _ = err (plain "unexpected json type")

  -- `extractBlockTimeAndTimestamp`: the handlers below pass raw messages on.
  unfoldable pub extract_block : Value → Result (ℕ × ℤ)
  unfolding parse_raw_block
  extract_block (raw j) = parse_raw_block j
  extract_block _ = err (plain "expected block")

  abbrev pub read_block : Result Json → Result (ℕ × ℤ)
  read_block (err e) = err e
  read_block (ok block) = extract_block (raw block)

  -- `clock` is `time.Now()`, and `too_slow` says that the deadline of 15 seconds has passed.
  module _ {ℓ} {S : Type ℓ} (clock : S → ℤ) (too_slow : S → Bool) where
    -- The head is updated only for a latest block that came without error.
    unfoldable pub note_latest : Bool → Reply → S → Validator → Option Error × Validator
    note_latest latest icept s v = elim icept.error [
      | some e ↦ (some e, v)
      | none ↦ if latest then update_with (extract_block icept.result) (clock s) v else (none, v)
    ]

    unfoldable pub block_by_number : Handler S → Handler (Validator × S)
    unfolding note_latest
    block_by_number next r (v, s) =
        let latest = is_latest r.params in
        let (sends, s') = next r s in
        let icept = intercept fresh sends in
        let (error, v') = note_latest latest icept s' v in
        let error' = slow_is_old (latest && too_slow s') (missing_is_old icept.result error) in
        (record { result = icept.result; error = error' } ∷ [], (v', s'))

    unfoldable pub block_number : Handler S → Handler (Validator × S)
    block_number next r (v, s) =
        let (answer, s') = do_raw hex next r.chain "eth_getBlockByNumber" latest_args s in
        let (reply, v') = answer_number (read_block answer) (clock s') v in (reply ∷ [], (v', s'))

    unfoldable pub never_null : Handler S → Handler (Validator × S)
    never_null next r (v, s) =
        let (sends, s') = next r s in
        let icept = intercept fresh sends in
        (
          record { result = icept.result; error = missing_is_old icept.result icept.error } ∷ [],
          (v, s'),
        )

    unfoldable pub serve : Handler S → Handler (Validator × S)
    serve next r (v, s) =
        let m = r.method in
        let pass = next r s in
        elim r.params [
          | malformed ↦ (failed (invalid_params "params must be valid json") ∷ [], (v, s))
          | _ ↦
              if str_eq m "eth_getBlockByNumber"
              then block_by_number next r (v, s)
              else if str_eq m "eth_blockNumber"
              then block_number next r (v, s)
              else if str_eq m "eth_getBlockByHash"
                  || str_eq m "eth_getLogs"
                  || str_eq m "eth_getBlockReceipts"
              then never_null next r (v, s)
              else (pass.0, (v, pass.1))
        ]
