-- ===== src/Tests/Forged.antt =====
-- Forged receipts, the block store over the cluster and the subscriptions at concrete inputs.
use venn.Subscriptions.Ranges.{logs_from}
use mathlib.Core.List.{Perm}
use venn.Prelude.{
  ℕ, suc, ◌+◌, ◌-◌, ◌≤◌, ◌≡◌, refl, String, Bool, true, false, some, List, [], ◌∷◌, arith, map, ltb,
  ◌⊎◌, inl, inr, if◌then◌else◌, ◌==◌, zero,
}
use venn.Prelude.Int.{pos}
use venn.Rpc.{
  Json, null, bool, str, arr, obj, nil, cons, end, field, to_list, of_list, Chain, Request, raw,
  sent, Handler, Result, ok, err, Error, do_raw, failed, plain,
}
use venn.Ethtypes.Filter.{FilterQuery, empty_query}
use venn.Stores.Blocks.{EntryType, block_header, range}
use venn.Stores.Blocks.Recent.Sound.{from}
use venn.Stores.Heads.{Head, read_head, read_first}
use venn.Stores.Chain
use venn.Stores.Chain.{by_number_keys, block_hash_keys}
use venn.Stores.Chain.Whole.{Whole, get-Whole}
use venn.Stores.ChainLogs.{get_logs, compact, query_args, log_keys}
use venn.Stores.ChainLogs.Grouped.{by_block, get_logs-by_block}
use venn.Middlewares.Forger.{Log, Receipt}
use venn.Middlewares.Forger
use venn.Middlewares.Forger.Placed.{placed, receipts-perm}
use venn.Middlewares.Blocks.{remove_transactions}
use venn.Subscriptions.{new_heads, run, number_args, logs_args, logs}
use venn.Subscriptions.Delivered.{heads, run-new_heads, run-logs}
use venn.Tests.Hex.{hexutil}
use venn.Tests.Data.{mainnet, same_bool}

abbrev zero_text : String
zero_text = "0x0000000000000000000000000000000000000000000000000000000000000000"

abbrev one_text : String
one_text = "0x0000000000000000000000000000000000000000000000000000000000000001"

abbrev tx : String → Json
tx h = obj (field "hash" (str h) (field "gas" (str "0x1") (field "to" (str "0xbb") end)))

abbrev log : Bool → Json → Log hexutil
log h j = record { document = j; hash = h }

abbrev block_logs : List (Log hexutil)
block_logs = log true (str "first") ∷ log false (str "second") ∷ log true (str "third") ∷ []

abbrev made : List (Receipt hexutil)
made =
    record {
      fields = field "transactionHash" (str zero_text) (field "to" (str "0xbb") end);
      hash = false;
      logs = str "second" ∷ [];
    }
    ∷ record {
      fields = field "transactionHash" (str one_text) (field "to" (str "0xbb") end);
      hash = true;
      logs = str "first" ∷ str "third" ∷ [];
    }
    ∷ []

made_run :
    Forger.receipts hexutil same_bool block_logs (tx zero_text ∷ tx one_text ∷ []) ≡ some made
unfolding Forger.receipts Forger.select
made_run = refl

distinct : (true ≡ false) ⊎ ⊥ → ⊥
distinct i = ground arith

receipts-perm_example : Perm (placed hexutil same_bool made) (map Log.document block_logs)
receipts-perm_example =
    receipts-perm hexutil same_bool block_logs (tx zero_text ∷ tx one_text ∷ []) made made_run
      (λ i. distinct i, (λ i. absurd i, tt)) (inr (inl refl), (inl refl, (inr (inl refl), tt)))

-- A cluster that answers every request with null.
abbrev absent : Handler ℕ
absent r s = (sent (raw null) ∷ [], s + 1)

-- One that has every block and every receipt.
abbrev serving : Handler ℕ
serving r s = (sent (raw (obj (field "hash" (str one_text) end))) ∷ [], s + 1)

get-Whole_example :
    Whole hexutil same_bool serving mainnet
      (λ n. ltb n 100)
      5
      7
      0
      "eth_getBlockByNumber"
      (cons (bool true) nil)
      (read_head hexutil by_number_keys)
      (Chain.get hexutil same_bool serving mainnet (λ n. ltb n 100) block_header (range 5 7) 0)
    × Whole hexutil same_bool serving mainnet
        (λ n. ltb n 100)
        5
        7
        0
        "eth_getBlockReceipts"
        nil
        (read_first hexutil block_hash_keys)
        (Chain.get hexutil same_bool serving mainnet
          (λ n. ltb n 100)
          EntryType.receipts
          (range 5 7)
          0)
get-Whole_example = get-Whole hexutil same_bool serving mainnet (λ n. ltb n 100) 5 7 0

abbrev chain_log : ℕ → String → Head Bool × Json
chain_log n number = (
  record { block_hash = true; block_number = n; parent_hash = false },
  obj (field "blockHash" (str one_text) (field "blockNumber" (str number) end)),
)

abbrev chain_logs : List (Head Bool × Json)
chain_logs = chain_log 7 "0x7" ∷ chain_log 5 "0x5" ∷ chain_log 7 "0x7" ∷ []

abbrev logging : Handler ℕ
logging r s = (sent (raw (arr (of_list (map (λ l. l.1) chain_logs)))) ∷ [], s + 1)

seven_read : read_head hexutil log_keys (chain_log 7 "0x7").1 ≡ some (chain_log 7 "0x7").0
unfolding read_head venn.Ethtypes.Filter.equal_fold
seven_read = refl

five_read : read_head hexutil log_keys (chain_log 5 "0x5").1 ≡ some (chain_log 5 "0x5").0
unfolding read_head venn.Ethtypes.Filter.equal_fold
five_read = refl

logs_got :
    do_raw hexutil logging
      (some mainnet)
      "eth_getLogs"
      (query_args hexutil same_bool logging mainnet
        (record empty_query { from_block = some (pos 5); to_block = some (pos 7) }))
      0
    ≡ (ok (arr (of_list (map (λ l. l.1) chain_logs))), 1)
unfolding do_raw venn.Rpc.intercept
logs_got = refl

get_logs-by_block_example :
    get_logs hexutil same_bool logging mainnet (λ n. ltb n 100) (range 5 7) 0
    ≡ some (ok (compact (by_block 5 (suc 7 - 5) chain_logs)), 1)
get_logs-by_block_example =
    get_logs-by_block hexutil same_bool logging mainnet (λ n. ltb n 100) 0 1 5 7 chain_logs
      (omega arith) (omega arith) refl
      (seven_read, omega arith, (five_read, omega arith, (seven_read, omega arith, tt))) logs_got

abbrev simple_block : Json
simple_block = obj (field "number" (str "0x5") (field "transactions" (arr nil) end))

-- It counts the requests.
abbrev blocks : Handler ℕ
blocks r s = (sent (raw simple_block) ∷ [], s + 1)

abbrev accept : Json → ℕ → Bool × ℕ
accept j s = (true, s)

block_got :
    (i s : ℕ)
    → (do_raw hexutil blocks
        (some mainnet)
        "eth_getBlockByNumber"
        (number_args hexutil blocks mainnet accept i)
        s).0
      ≡ ok simple_block
unfolding do_raw venn.Rpc.intercept
block_got i s = refl

cut : remove_transactions simple_block ≡ some (obj (field "number" (str "0x5") end))
unfolding remove_transactions
cut = refl

run-new_heads_example :
    (run hexutil blocks mainnet accept new_heads (heads (7 ∷ 8 ∷ [])) 5 0).0.0
    ≡ map (λ (i : ℕ). obj (field "number" (str "0x5") end)) (from 6 (8 - 5))
run-new_heads_example =
    run-new_heads hexutil blocks mainnet accept (λ j s. refl) (λ i. simple_block)
      (λ i. obj (field "number" (str "0x5") end)) block_got (λ i. cut) 5 (7 ∷ 8 ∷ []) 0
      (omega arith)

-- It fails at the first request, and then has no logs.
abbrev failing : Handler ℕ
failing r s =
    if s == 0 then (failed (plain "timeout") ∷ [], s + 1) else (sent (raw (arr nil)) ∷ [], s + 1)

no_logs : (i m : ℕ) → logs_from (λ n. []) i m ≡ []
no_logs i zero = refl
no_logs i (suc m) = no_logs (suc i) m

answered :
    (q : FilterQuery Bool Bool) (a b s : ℕ)
    → let answer =
        do_raw hexutil failing
          (some mainnet)
          "eth_getLogs"
          (logs_args hexutil failing mainnet accept q a b)
          s in
      ((e : Error) × (answer.0 ≡ err e))
      ⊎ (answer.0 ≡ ok (arr (of_list (logs_from (λ n. []) a (suc b - a)))))
unfolding do_raw venn.Rpc.intercept of_list
answered q a b zero = inl (plain "timeout", refl)
answered q a b (suc s) = inr (rw (no_logs a (suc b - a)) (ground arith))

run-logs_example :
    let (sends, reached) =
      run hexutil failing mainnet accept (logs empty_query) (heads (7 ∷ 8 ∷ [])) 5 0 in
    (5 ≤ reached) × (sends.0 ≡ logs_from (λ n. []) 6 (reached - 5))
run-logs_example =
    run-logs hexutil failing mainnet accept (λ j s. refl) empty_query (λ n. [])
      (answered empty_query) 5 (7 ∷ 8 ∷ []) 0 (omega arith)
