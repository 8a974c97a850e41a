-- ===== src/Stores/ChainLogs.antt =====
-- `getLogs` of svc/node/stores/vennstores/chainblock/module.go: the logs of a range, block by block.
pub mod Grouped
use mathlib.Core.Logic.{ite}
use venn.Prelude.{
  ℕ, zero, suc, ◌+◌, ◌-◌, Bool, Option, none, some, List, [], ◌∷◌, ◌++◌, length, replicate, ltb,
  leb, ◌==◌, ◌||◌, if◌then◌else◌,
}
use venn.Prelude.Int.{ℤ, pos, negsuc}
use venn.Rpc.{
  Json, null, arr, Items, nil, cons, to_list, of_list, Error, decode_error, Chain, Handler, Hexutil,
  Result, ok, err, do_raw,
}
use venn.Ethtypes.BlockNumber.{to_int64}
use venn.Ethtypes.Filter.{FilterQuery, empty_query, marshal_query}
use venn.Middlewares.LookBack.{sub_uint64}
use venn.Stores.Blocks.{Entry, Query, range, hash}
use venn.Stores.Heads.{Keys, Head, read_head, read_first}

abbrev pub log_keys : Keys
log_keys = record { hash = "blockHash"; number = some "blockNumber"; parent = none }

abbrev pub single_keys : Keys
single_keys = record { hash = "blockHash"; number = none; parent = none }

-- A result with the writer for its logs.
pub record Slot (H : Type 0) : Type 0 where
  pub block_hash : H
  pub block_number : ℕ
  pub logs : List Json

module _ {H : Type 0} where
  -- The first log of a block makes the result, and every log is written.
  unfoldable pub put_log : Head H → Json → Option (Slot H) → Slot H
  put_log head log none = record {
    block_hash = head.block_hash;
    block_number = head.block_number;
    logs = log ∷ [];
  }
  put_log head log (some s) = record s { logs = s.logs ++ (log ∷ []) }

  unfoldable pub put_at : ℕ → Head H → Json → List (Option (Slot H)) → List (Option (Slot H))
  unfolding put_log
  put_at i head log [] = []
  put_at zero head log (s ∷ slots) = some (put_log head log s) ∷ slots
  put_at (suc i) head log (s ∷ slots) = s ∷ put_at i head log slots

  -- `i < 0 || i >= len(encoders)` skips the log.
  abbrev pub place_at : ℤ → Head H → Json → List (Option (Slot H)) → List (Option (Slot H))
  place_at (negsuc i) head log slots = slots
  place_at (pos i) head log slots = if leb (length slots) i then slots else put_at i head log slots

  unfoldable pub place : ℕ → Head H → Json → List (Option (Slot H)) → List (Option (Slot H))
  unfolding put_at sub_uint64
  place start head log slots =
      place_at (to_int64 (sub_uint64 head.block_number start)) head log slots

  -- The last loop: what is there, in order.
  unfoldable pub compact : List (Option (Slot H)) → List (Entry H)
  compact [] = []
  compact (none ∷ slots) = compact slots
  compact (some s ∷ slots) =
      record {
        block_hash = s.block_hash;
        block_number = s.block_number;
        parent_hash = none;
        value = arr (of_list s.logs);
      }
      ∷ compact slots

module _ (hex : Hexutil) where
  -- The loop over the logs of the answer.
  unfoldable pub place_all :
      ℕ → Items → List (Option (Slot hex.Hash)) → Option (List (Option (Slot hex.Hash)))
  unfolding place
  place_all start nil slots = some slots
  place_all start (cons log logs) slots = elim (read_head hex log_keys log) [
    | none ↦ none
    | some head ↦ place_all start logs (place start head log slots)
  ]

  abbrev pub or_error : Option (List (Option (Slot hex.Hash))) → Result (List (Entry hex.Hash))
  or_error none = err decode_error
  or_error (some slots) = ok (compact slots)

  unfoldable pub group : ℕ → ℕ → Json → Result (List (Entry hex.Hash))
  unfolding place_all compact
  group start n (arr logs) = or_error (place_all start logs (replicate n none))
  group start n _ = err decode_error

  module _ (dec : Discrete hex.Hash) {S : Type 0} (remote : Handler S) (chain : Chain) where
    abbrev pub query_args : FilterQuery hex.Address hex.Hash → Json
    query_args q = arr (cons (marshal_query hex q) nil)

    abbrev pub on_single : ℕ → Json → Option (Head hex.Hash) → Result (List (Entry hex.Hash))
    on_single start value none = err decode_error
    on_single start value (some head) = ite (dec head.block_hash hex.zero_hash) (ok []) (
        ok (
          record {
            block_hash = head.block_hash;
            block_number = start;
            parent_hash = none;
            value = value;
          }
          ∷ []))

    -- What becomes of the answer for a range; `none` is a panic of `make`.
    abbrev pub on_range : (ℕ → Bool) → ℕ → ℕ → Result Json → Option (Result (List (Entry hex.Hash)))
    on_range fits start end (err e) = some (err e)
    on_range fits start end (ok logs) =
        if start == end
        then some (on_single start logs (read_first hex single_keys logs))
        else if fits (sub_uint64 (suc end) start)
        then some (group start (suc end - start) logs)
        else none

    abbrev pub of_hash : hex.Hash → Json → Option (Head hex.Hash) → Result (List (Entry hex.Hash))
    of_hash h value none = err decode_error
    of_hash h value (some head) =
        ite (dec head.block_hash h)
          (ok (
            record {
              block_hash = h;
              block_number = head.block_number;
              parent_hash = none;
              value = value;
            }
            ∷ []))
          (ok [])

    abbrev pub on_hash : hex.Hash → Result Json → Result (List (Entry hex.Hash))
    on_hash h (err e) = err e
    on_hash h (ok logs) = of_hash h logs (read_first hex log_keys logs)

    abbrev pub with_state : {A : Type 0} → S → Option A → Option (A × S)
    with_state s none = none
    with_state s (some a) = some (a, s)

    unfoldable pub get_logs :
        (ℕ → Bool) → Query hex.Hash → S → Option (Result (List (Entry hex.Hash)) × S)
    unfolding group read_first
    get_logs fits (hash h) s =
        let (logs, s') =
          do_raw hex remote (some chain) "eth_getLogs"
            (query_args (record empty_query { block_hash = some h })) s in
        some (on_hash h logs, s')
    get_logs fits (range start end) s =
        let q : FilterQuery hex.Address hex.Hash = record empty_query {
          from_block = some (to_int64 start);
          to_block = some (to_int64 end);
        } in
        let (logs, s') = do_raw hex remote (some chain) "eth_getLogs" (query_args q) s in
        if ltb end start then some (ok [], s) else with_state s' (on_range fits start end logs)
