-- ===== src/Stores/Chain.antt =====
-- svc/node/stores/vennstores/chainblock/module.go: the block store that asks the cluster.
pub mod Whole
use mathlib.Core.Logic.{ite}
use venn.Prelude.{
  ℕ, zero, suc, ◌+◌, ◌-◌, String, Bool, true, false, Option, none, some, List, [], ◌∷◌, ◌++◌,
  length, replicate, get_elem?, set, ltb, leb, ◌==◌, if◌then◌else◌,
}
use venn.Prelude.Int.{ℤ, pos, negsuc}
use venn.Rpc.{
  Json, null, bool, str, arr, Items, nil, cons, of_list, Error, plain, decode_error, Chain, Handler,
  Hexutil, Result, ok, err, do_raw,
}
use venn.Ethtypes.BlockNumber.{to_int64}
use venn.Ethtypes.Filter.{FilterQuery, empty_query, marshal_query}
use venn.Middlewares.LookBack.{sub_uint64}
use venn.Stores.Blocks.{EntryType, block_header, logs, receipts, Entry, Query, range, hash}
use venn.Stores.ChainLogs.{get_logs}
use venn.Stores.Heads.{Keys, Head, read_head, read_first}

abbrev pub by_hash_keys : Keys
by_hash_keys = record { hash = "hash"; number = some "number"; parent = some "parentHash" }

abbrev pub by_number_keys : Keys
by_number_keys = record { hash = "hash"; number = none; parent = some "parentHash" }

abbrev pub block_hash_keys : Keys
block_hash_keys = record { hash = "blockHash"; number = none; parent = none }

abbrev pub log_keys : Keys
log_keys = record { hash = "blockHash"; number = some "blockNumber"; parent = none }

module _ (hex : Hexutil) where
  -- The entry of one block number from its answer; `ok none` if the block is not there.
  abbrev pub with_parent : Bool → Head hex.Hash → Option hex.Hash
  with_parent true head = some head.parent_hash
  with_parent false head = none

  abbrev pub entry_of : Bool → ℕ → Json → Head hex.Hash → Entry hex.Hash
  entry_of parent i block head = record {
    block_hash = head.block_hash;
    block_number = i;
    parent_hash = with_parent parent head;
    value = block;
  }

  module _ (dec : Discrete hex.Hash) {S : Type 0} (remote : Handler S) (chain : Chain) where
    abbrev pub number_args : ℕ → Items → Json
    number_args i rest = arr (cons (str (hex.encode_uint64 i)) rest)

    -- The loops of `getBlockHeaders` and `getReceipts` over a range, with `m` rounds left. An end of 2^64 - 1,
    -- which a counter of 64 bits never passes, is left out. `ok none` is the return without entries.
    abbrev pub Found : Type 0
    Found = Result (Option (List (Entry hex.Hash)))

    abbrev pub cons_found : Entry hex.Hash → Found → Found
    cons_found e (err x) = err x
    cons_found e (ok none) = ok none
    cons_found e (ok (some es)) = ok (some (e ∷ es))

    abbrev pub on_head : Bool → ℕ → Json → Option (Head hex.Hash) → S → (S → Found × S) → Found × S
    on_head parent i block none s rest = (err decode_error, s)
    on_head parent i block (some head) s rest =
        let (found, s') = rest s in
        ite (dec head.block_hash hex.zero_hash) (ok none, s)
          (cons_found (entry_of parent i block head) found, s')

    abbrev pub on_block :
        (Json → Option (Head hex.Hash)) → Bool → ℕ → Result Json → S → (S → Found × S) → Found × S
    on_block read parent i (err e) s rest = (err e, s)
    on_block read parent i (ok block) s rest = on_head parent i block (read block) s rest

    unfoldable pub fetch_range :
        String → Items → (Json → Option (Head hex.Hash)) → Bool → ℕ → ℕ → S → Found × S
    fetch_range method rest_args read parent zero i s = (ok (some []), s)
    fetch_range method rest_args read parent (suc m) i s =
        let (block, s') = do_raw hex remote (some chain) method (number_args i rest_args) s in
        on_block read parent i block s' (fetch_range method rest_args read parent m (suc i))

    abbrev pub or_nothing : Found × S → Result (List (Entry hex.Hash)) × S
    or_nothing (err e, s) = (err e, s)
    or_nothing (ok none, s) = (ok [], s)
    or_nothing (ok (some es), s) = (ok es, s)

    abbrev pub hash_args : hex.Hash → Json
    hash_args h = arr (cons (str (hex.encode_hash h)) (cons (bool true) nil))

    -- The answer to a question for one hash, if it is for that hash.
    abbrev pub of_hash :
        hex.Hash → Bool → Json → Option (Head hex.Hash) → Result (List (Entry hex.Hash))
    of_hash h parent value none = err decode_error
    of_hash h parent value (some head) =
        ite (dec head.block_hash h)
          (ok (
            record {
              block_hash = h;
              block_number = head.block_number;
              parent_hash = with_parent parent head;
              value = value;
            }
            ∷ []))
          (ok [])

    abbrev pub on_hash :
        hex.Hash
        → Bool
        → (Json → Option (Head hex.Hash))
        → Result Json
        → Result (List (Entry hex.Hash))
    on_hash h parent read (err e) = err e
    on_hash h parent read (ok value) = of_hash h parent value (read value)

    -- What a get gives; `none` is a panic of `make` for a length that `fits` refuses.
    abbrev pub Got : Type 0
    Got = Option (Result (List (Entry hex.Hash)) × S)

    unfoldable pub get_headers : (ℕ → Bool) → Query hex.Hash → S → Got
    unfolding fetch_range
    get_headers fits (hash h) s =
        let (block, s') = do_raw hex remote (some chain) "eth_getBlockByHash" (hash_args h) s in
        some (on_hash h true (read_head hex by_hash_keys) block, s')
    get_headers fits (range start end) s =
        let found =
          fetch_range "eth_getBlockByNumber" (cons (bool true) nil) (read_head hex by_number_keys)
            true (suc end - start) start s in
        if ltb end start
        then some (ok [], s)
        else if fits (sub_uint64 (suc end) start)
        then some (or_nothing found)
        else none

    abbrev pub no_receipts_by_hash : Error
    no_receipts_by_hash = plain "cannot get block receipts by hash"

    unfoldable pub get_receipts : (ℕ → Bool) → Query hex.Hash → S → Got
    unfolding fetch_range read_first
    get_receipts fits (hash h) s = some (err no_receipts_by_hash, s)
    get_receipts fits (range start end) s =
        let found =
          fetch_range "eth_getBlockReceipts" nil (read_first hex block_hash_keys) false
            (suc end - start) start s in
        if ltb end start
        then some (ok [], s)
        else if fits (sub_uint64 (suc end) start)
        then some (or_nothing found)
        else none

    -- `Get`, with the handler that it takes from the clusters.
    unfoldable pub get : (ℕ → Bool) → EntryType → Query hex.Hash → S → Got
    unfolding get_headers get_receipts
    get fits block_header query s = get_headers fits query s
    get fits receipts query s = get_receipts fits query s
    get fits logs query s = get_logs hex dec remote chain fits query s

  -- `Put` keeps nothing.
  unfoldable pub put :
      {S : Type 0} → Chain → EntryType → List (Entry hex.Hash) → S → Option Error × S
  put chain typ entries s = (none, s)
