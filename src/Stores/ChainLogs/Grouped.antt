-- ===== src/Stores/ChainLogs/Grouped.antt =====
-- The logs of a range by block (svc/node/stores/vennstores/chainblock/module.go).
use mathlib.Core.List.{append_assoc, append-nil}
use venn.Prelude.{
  ℕ, zero, suc, ◌+◌, ◌-◌, ◌^◌, ◌<◌, ◌≤◌, ◌≡◌, ◌≢◌, ◌⊎◌, refl, sym, ap, ◌∙◌, Bool, true, false,
  Option, none, some, List, [], ◌∷◌, ◌++◌, arith, length, replicate, ltb, leb, ◌==◌, if◌then◌else◌,
  map, Bool-cases, inl, inr,
}
use venn.Prelude.Int.{pos}
use venn.Rpc.{Json, arr, of_list, Chain, Handler, Hexutil, Result, ok, do_raw}
use venn.Middlewares.LookBack.{sub_uint64}
use venn.Stores.Blocks.{Entry, range}
use venn.Ethtypes.Filter.{empty_query}
use venn.Stores.Heads.{Head, read_head}
use venn.Stores.ChainLogs.{
  Slot, put_log, put_at, place, compact, place_all, or_error, group, log_keys, query_args, get_logs,
}

-- A log with what is decoded of it.
abbrev pub Log : Type 0 → Type 0
Log H = Head H × Json

module _ {H : Type 0} where
  -- The logs of one block, in order.
  abbrev pub at_block : ℕ → List (Log H) → List (Log H)
  at_block b [] = []
  at_block b (l ∷ logs) =
      let rest = at_block b logs in if l.0.block_number == b then l ∷ rest else rest

  abbrev pub document : Log H → Json
  document l = l.1

  -- The result for one block: none if it has no logs.
  abbrev pub slot_of : List (Log H) → Option (Slot H)
  slot_of [] = none
  slot_of (l ∷ logs) = some (record {
    block_hash = l.0.block_hash;
    block_number = l.0.block_number;
    logs = l.1 ∷ map document logs;
  })

  -- The results for `n` blocks from `b` on.
  abbrev pub by_block : ℕ → ℕ → List (Log H) → List (Option (Slot H))
  by_block b zero logs = []
  by_block b (suc n) logs = slot_of (at_block b logs) ∷ by_block (suc b) n logs

  length-by_block : (b n : ℕ) (logs : List (Log H)) → length (by_block b n logs) ≡ n
  length-by_block b zero logs = refl
  length-by_block b (suc n) logs = ap suc (length-by_block (suc b) n logs)

  map-snoc :
      (logs : List (Log H)) (l : Log H)
      → map document (logs ++ (l ∷ [])) ≡ map document logs ++ (l.1 ∷ [])
  map-snoc [] l = refl
  map-snoc (x ∷ logs) l = ap (◌∷◌ x.1) (map-snoc logs l)

  put_log-slot_of :
      (logs : List (Log H)) (l : Log H)
      → some (put_log l.0 l.1 (slot_of logs)) ≡ slot_of (logs ++ (l ∷ []))
  unfolding put_log
  put_log-slot_of [] l = refl
  put_log-slot_of (x ∷ logs) l = rw (map-snoc logs l) refl

  at_block-same :
      (b : ℕ) (logs : List (Log H)) (l : Log H)
      → l.0.block_number ≡ b
      → at_block b (logs ++ (l ∷ [])) ≡ at_block b logs ++ (l ∷ [])
  at_block-same b [] l e = ground arith
  at_block-same b (x ∷ logs) l e = ground (arith, at_block-same b logs l e)

  at_block-other :
      (b : ℕ) (logs : List (Log H)) (l : Log H)
      → l.0.block_number ≢ b
      → at_block b (logs ++ (l ∷ [])) ≡ at_block b logs
  at_block-other b [] l e = ground arith
  at_block-other b (x ∷ logs) l e = ground (arith, at_block-other b logs l e)

  -- A log below or above all blocks changes no result.
  by_block-other :
      (b n : ℕ) (logs : List (Log H)) (l : Log H)
      → ((l.0.block_number < b) ⊎ (b + n ≤ l.0.block_number))
      → by_block b n (logs ++ (l ∷ [])) ≡ by_block b n logs
  by_block-other b zero logs l h = refl
  by_block-other b (suc n) logs l h =
      rw (at_block-other b logs l (omega arith), by_block-other (suc b) n logs l (omega arith)) refl

  put_at-by_block :
      (i b n : ℕ) (logs : List (Log H)) (l : Log H)
      → l.0.block_number ≡ b + i
      → i < n
      → put_at i l.0 l.1 (by_block b n logs) ≡ by_block b n (logs ++ (l ∷ []))
  unfolding put_at
  put_at-by_block i b zero logs l e h = absurd (omega arith)
  put_at-by_block zero b (suc n) logs l e h =
      rw
        (
          put_log-slot_of (at_block b logs) l,
          at_block-same b logs l (omega arith),
          by_block-other (suc b) n logs l (omega arith),
        )
        refl
  put_at-by_block (suc i) b (suc n) logs l e h =
      rw
        (
          at_block-other b logs l (omega arith),
          put_at-by_block i (suc b) n logs l (omega arith) (omega arith),
        )
        refl

  by_block-nil : (b n : ℕ) → replicate n none ≡ by_block b n []
  by_block-nil b zero = refl
  by_block-nil b (suc n) = ap (λ (s : List (Option (Slot H))). none ∷ s) (by_block-nil (suc b) n)

  -- A log goes to the result of its block, or is skipped.
  place-by_block :
      (b n : ℕ) (logs : List (Log H)) (l : Log H)
      → b + n ≤ 2 ^ 63
      → l.0.block_number < 2 ^ 64
      → place b l.0 l.1 (by_block b n logs) ≡ by_block b n (logs ++ (l ∷ []))
  unfolding place
  place-by_block b n logs l h k = elim (Bool-cases (leb b l.0.block_number)) [
    | inl le ↦ elim (Bool-cases (leb (b + n) l.0.block_number)) [
      | inl above ↦
          ground (arith, length-by_block b n logs, by_block-other b n logs l (inr (ground arith)))
      | inr within ↦
          ground
            (arith, length-by_block b n logs, put_at-by_block (l.0.block_number - b) b n logs l)
    ]
    | inr below ↦ ground (arith, by_block-other b n logs l (inl (ground arith)))
  ]

module _ (hex : Hexutil) where
  -- The logs are decoded as these, with numbers of 64 bits.
  abbrev pub AreDecoded : List (Log hex.Hash) → Type 0
  AreDecoded [] = Unit
  AreDecoded (l ∷ logs) =
      (read_head hex log_keys l.1 ≡ some l.0) × (l.0.block_number < 2 ^ 64) × AreDecoded logs

  place_all-by_block :
      (b n : ℕ) (later logs : List (Log hex.Hash))
      → b + n ≤ 2 ^ 63
      → AreDecoded later
      → place_all hex b (of_list (map document later)) (by_block b n logs)
        ≡ some (by_block b n (logs ++ later))
  unfolding place_all of_list
  place_all-by_block b n [] logs h d =
      ap (λ (x : List (Log hex.Hash)). some (by_block b n x)) (sym (append-nil logs))
  place_all-by_block b n (l ∷ later) logs h d =
      rw (d.0, place_all, place-by_block b n logs l h d.1)
        (place_all-by_block b n later (logs ++ (l ∷ [])) h d.2
          ∙ ap (λ (x : List (Log hex.Hash)). some (by_block b n x))
              (append_assoc logs (l ∷ []) later))

  group-by_block :
      (b n : ℕ) (logs : List (Log hex.Hash))
      → b + n ≤ 2 ^ 63
      → AreDecoded logs
      → group hex b n (arr (of_list (map document logs))) ≡ ok (compact (by_block b n logs))
  unfolding group
  group-by_block b n logs h d = ap (or_error hex) (
      ap (place_all hex b (of_list (map document logs))) (by_block-nil b n)
      ∙ place_all-by_block b n logs [] h d)

  module _ (dec : Discrete hex.Hash) {S : Type 0} (remote : Handler S) (chain : Chain)
      (fits : ℕ → Bool) (s s' : S) where
    -- Where a range of more than one block ends below 2^63 and its length can be allocated, and the
    -- remote answers with logs that can be decoded, `Get` gives one entry for each block of the
    -- range that has logs, in order, with all of its logs, in order.
    pub get_logs-by_block :
        (start end : ℕ) (logs : List (Log hex.Hash))
        → start < end
        → end < 2 ^ 63
        → fits (suc end - start) ≡ true
        → AreDecoded logs
        → do_raw hex remote
            (some chain)
            "eth_getLogs"
            (query_args hex dec remote chain
              (record empty_query { from_block = some (pos start); to_block = some (pos end) }))
            s
          ≡ (ok (arr (of_list (map document logs))), s')
        → get_logs hex dec remote chain fits (range start end) s
          ≡ some (ok (compact (by_block start (suc end - start) logs)), s')
    unfolding get_logs sub_uint64
    get_logs-by_block start end logs h k f d g =
        let below : ltb start (2 ^ 63) ≡ true = ground arith in
        let below' : ltb end (2 ^ 63) ≡ true = ground arith in
        let ordered : ltb end start ≡ false = ground arith in
        let distinct : (start == end) ≡ false = ground arith in
        let blocks : sub_uint64 (suc end) start ≡ suc end - start = ground arith in
        rw (below, below', ordered, g, get_logs, distinct, blocks, f)
          (ap (λ (r : Result (List (Entry hex.Hash))). some (r, s'))
            (group-by_block start (suc end - start) logs (omega arith) d))
