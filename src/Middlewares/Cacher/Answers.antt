-- ===== src/Middlewares/Cacher/Answers.antt =====
-- The answers of svc/node/atoms/cacher/cacher.go to requests for blocks and logs.
use venn.Prelude.{
  ℕ, ◌+◌, ◌-◌, ◌^◌, ◌<◌, ◌≤◌, ◌≡◌, refl, Bool, true, false, none, some, List, [], ◌∷◌, arith, map,
}
use venn.Prelude.Int.{pos, negsuc, ◌-ℤ◌, ltb_ℤ}
use venn.Prelude.Int64.{wrap, wrap_nat}
use venn.Rpc.{
  Json, null, arr, of_list, raw_list, decode_bool, Fields, Chain, Request, Reply, Value, raw, sent,
  Handler, Hexutil, Result, ok, do_raw,
}
use venn.Ethtypes.BlockNumber.{unmarshal}
use venn.Ethtypes.Filter.{FilterQuery, decode_query}
use venn.Ethtypes.Logs.{LogAddressTopics, compile_filter, filter}
use venn.Stores.Blocks.{block_header, logs, Entry, range, BlockStore}
use venn.Middlewares.Blocks.Stripped.{
  Transaction, block, document, Lacks, HaveOneHash, remove_details-block,
}
use venn.Middlewares.LogFilter.Kept.{Hold, all_logs, filter_entries-filter}
use venn.Middlewares.Cacher.{
  one_param, block_params, answer_block, present, stored_block, remote_block, keep_block,
  block_args, logs_query, stored_logs, get_logs, serve,
}

wrap-small : (from to : ℕ) → from ≤ to → to < 2 ^ 63 → wrap (pos to -ℤ pos from) ≡ pos (to - from)
unfolding wrap wrap_nat ◌-ℤ◌
wrap-small from to h k = ground arith

-- The end of a tag is no more than the limit above the start.
wrap-tag : (from k : ℕ) → from + k < 2 ^ 63 → ltb_ℤ (pos 10) (wrap (negsuc k -ℤ pos from)) ≡ false
unfolding wrap wrap_nat ◌-ℤ◌
wrap-tag from k h = ground arith

module _ (hex : Hexutil) (dec_a : Discrete hex.Address) (dec_h : Discrete hex.Hash) {S : Type 0}
    (store : BlockStore hex.Hash S) (q : FilterQuery hex.Address hex.Hash) (from : ℕ)
    (qh : q.block_hash ≡ none) (qf : q.from_block ≡ some (pos from)) where
  logs_query-range :
      (to : ℕ)
      → q.to_block ≡ some (pos to)
      → from ≤ to
      → to - from ≤ 10
      → to < 2 ^ 63
      → logs_query hex dec_a dec_h store q ≡ some (range from to)
  unfolding logs_query
  logs_query-range to qt h k l = rw (qh, logs_query, qf, qt, wrap-small from to h l) (ground arith)

  logs_query-tag :
      (k : ℕ)
      → q.to_block ≡ some (negsuc k)
      → from + k < 2 ^ 63
      → logs_query hex dec_a dec_h store q ≡ some (range from (2 ^ 64 - k - 1))
  unfolding logs_query
  logs_query-tag k qt h = rw (qh, logs_query, qf, qt, wrap-tag from k h) refl

module _ (hex : Hexutil) (dec_a : Discrete hex.Address) (dec_h : Discrete hex.Hash) {S : Type 0}
    (store : BlockStore hex.Hash S) (next : Handler S) (r : Request) (chain : Chain) (s s' : S)
    (at : r.chain ≡ some chain) where
  -- Where the store answers with one block, of one field `transactions` whose transactions have one
  -- field `hash` each, a request for that block by its number and without details gets the block
  -- with the hashes for the transactions, in order, and all else in place.
  pub serve-stored_block :
      (first second : Json) (n : ℕ) (e : Entry hex.Hash) (before after : Fields)
      (ts : List Transaction)
      → r.method ≡ "eth_getBlockByNumber"
      → raw_list r.params ≡ some (first ∷ second ∷ [])
      → unmarshal hex first ≡ some (pos n)
      → decode_bool second ≡ some false
      → store.get chain block_header (range n n) s ≡ (ok (e ∷ []), s')
      → e.value ≡ block before (map document ts) after
      → Lacks "transactions" before
      → Lacks "transactions" after
      → HaveOneHash ts
      → serve hex dec_a dec_h store next r s
        ≡ some (sent (raw (block before (map Transaction.hash ts) after)) ∷ [], s')
  unfolding serve block_params stored_block answer_block present
  serve-stored_block first second n e before after ts rm rp u d g v h k p =
      rw (at, rm, rp, serve, u, d, g, block_params)
        (rw (v, remove_details-block before after ts h k p, present) refl)

  -- Where the remote answers null to a request for the block of a tag, and the store takes entries,
  -- null is put into the store as the block with the number 0 and the zero hash, and is answered.
  pub serve-null :
      (first second : Json) (k : ℕ) (details : Bool) (s'' : S)
      → r.method ≡ "eth_getBlockByNumber"
      → raw_list r.params ≡ some (first ∷ second ∷ [])
      → unmarshal hex first ≡ some (negsuc k)
      → decode_bool second ≡ some details
      → do_raw hex next
          (some chain)
          "eth_getBlockByNumber"
          (block_args hex dec_a dec_h store (negsuc k))
          s
        ≡ (ok null, s')
      → store.put chain block_header
          (record {
            block_hash = hex.zero_hash;
            block_number = 0;
            parent_hash = some hex.zero_hash;
            value = null;
          }
            ∷ [])
          s'
        ≡ (none, s'')
      → serve hex dec_a dec_h store next r s ≡ some (sent (raw null) ∷ [], s'')
  unfolding serve block_params remote_block keep_block venn.Stores.Heads.read_head present
      venn.Rpc.is_null
  serve-null first second k true s'' rm rp u d g p =
      rw (at, rm, serve, rp, u, d, block_params, g, remote_block) (ground arith)
  serve-null first second k false s'' rm rp u d g p =
      rw (at, rm, serve, rp, u, d, block_params, g, remote_block) (ground arith)

  -- Where `eth_getLogs` asks for no block hash and for a range of numbers below 2^63 that ends at
  -- most 10 above its start, the store answers with entries for it, and their logs can be read, the
  -- answer is the array of those logs that `CompiledFilter.Filter` keeps, in order.
  pub serve-logs :
      (params : Json) (q : FilterQuery hex.Address hex.Hash) (from to : ℕ)
      (entries : List (Entry hex.Hash)) (blocks : List (List Json))
      (view : Json → LogAddressTopics hex.Address hex.Hash)
      → r.method ≡ "eth_getLogs"
      → raw_list r.params ≡ some (params ∷ [])
      → decode_query hex params ≡ some q
      → q.block_hash ≡ none
      → q.from_block ≡ some (pos from)
      → q.to_block ≡ some (pos to)
      → from ≤ to
      → to - from ≤ 10
      → to < 2 ^ 63
      → store.get chain logs (range from to) s ≡ (ok entries, s')
      → Hold hex dec_a dec_h view entries blocks
      → serve hex dec_a dec_h store next r s
        ≡ some (
          sent (
                raw (
                  arr (
                    of_list (
                      filter dec_a dec_h view
                        (compile_filter dec_a dec_h q.addresses q.topics)
                        (all_logs hex dec_a dec_h view blocks)))))
              ∷ [],
          s',
        )
  unfolding serve one_param get_logs stored_logs venn.Middlewares.LookBack.decode_list
  serve-logs params q from to entries blocks view rm rp d qh qf qt fl lt lo g h =
      let found = logs_query-range hex dec_a dec_h store q from qh qf to qt fl lt lo in
      rw (at, rm, serve, rp, d, one_param, found, get_logs)
        (rw (g, stored_logs, filter_entries-filter hex dec_a dec_h view _ entries blocks h) refl)

module _ (hex : Hexutil) (dec_a : Discrete hex.Address) (dec_h : Discrete hex.Hash) {S : Type 0}
    (store : BlockStore hex.Hash S) (next : Handler S) (r : Request) (chain : Chain) (s : S)
    (at : r.chain ≡ some chain) where
  -- Where `eth_getLogs` asks for no block hash, for a start below 2^63 and for a tag as the end, the
  -- store is asked for the range from the start to the tag's number taken as a `uint64`, which is
  -- the greatest number for `latest`.
  pub serve-tag :
      (params : Json) (q : FilterQuery hex.Address hex.Hash) (from k : ℕ)
      → r.method ≡ "eth_getLogs"
      → raw_list r.params ≡ some (params ∷ [])
      → decode_query hex params ≡ some q
      → q.block_hash ≡ none
      → q.from_block ≡ some (pos from)
      → q.to_block ≡ some (negsuc k)
      → from + k < 2 ^ 63
      → serve hex dec_a dec_h store next r s
        ≡ stored_logs hex dec_a dec_h store chain q (range from (2 ^ 64 - k - 1)) s
  unfolding serve one_param get_logs venn.Middlewares.LookBack.decode_list
  serve-tag params q from k rm rp d qh qf qt l =
      let asked = logs_query-tag hex dec_a dec_h store q from qh qf k qt l in
      rw (at, rm, serve, rp, d, one_param, asked, get_logs) refl
