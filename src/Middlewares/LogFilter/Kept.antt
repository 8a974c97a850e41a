-- ===== src/Middlewares/LogFilter/Kept.antt =====
-- `filterLogs` of svc/node/atoms/cacher/cacher.go against `CompiledFilter.Filter` of
-- lib/ethtypes/logs.go, and where its decoding of hexadecimal texts panics.
use venn.Prelude.{
  ℕ, zero, suc, ◌≡◌, refl, ◌↔◌, true, Option, none, some, List, [], ◌∷◌, ◌++◌, arith, if◌then◌else◌,
}
use venn.Rpc.{Json, arr, of_list, Hexutil}
use venn.Ethtypes.Logs.{LogAddressTopics, CompiledFilter, check, filter}
use venn.Stores.Blocks.{Entry}
use venn.Middlewares.LogFilter.{
  panicked, got, is_digit, hex_decode, trim_prefix, raw_bytes, read_log, put_log, filter_items,
  filter_entries,
}

-- The text starts with this many pairs of digits.
abbrev pub HasPairs : ℕ → List ℕ → Type 0
HasPairs zero s = Unit
HasPairs (suc n) [] = ⊥
HasPairs (suc n) (c ∷ []) = ⊥
HasPairs (suc n) (c ∷ d ∷ s) = (is_digit c ≡ true) × (is_digit d ≡ true) × HasPairs n s

hex_decode-panics_iff : (s : List ℕ) (n : ℕ) → (hex_decode s n ≡ panicked) ↔ HasPairs (suc n) s
unfolding hex_decode
hex_decode-panics_iff [] n = (λ h. cc, λ h. absurd h)
hex_decode-panics_iff (c ∷ []) n = (λ h. cc, λ h. absurd h)
hex_decode-panics_iff (c ∷ d ∷ s) zero = ground arith
hex_decode-panics_iff (c ∷ d ∷ s) (suc n) = ground (arith, hex_decode-panics_iff s n)

-- Reading an address (n = 20) or a hash (n = 32) from a log panics exactly if its text, after an
-- optional 0x, starts with n + 1 pairs of hexadecimal digits.
pub raw_bytes-panics_iff :
    (n : ℕ) (s : List ℕ) → (raw_bytes n s ≡ panicked) ↔ HasPairs (suc n) (trim_prefix s)
unfolding raw_bytes
raw_bytes-panics_iff n s = ground (arith, hex_decode-panics_iff (trim_prefix s) n)

module _ (hex : Hexutil) (dec_a : Discrete hex.Address) (dec_h : Discrete hex.Hash)
    (view : Json → LogAddressTopics hex.Address hex.Hash) where
  -- Every log of the list is read as its view.
  abbrev pub AreRead : List Json → Type 0
  AreRead [] = Unit
  AreRead (log ∷ logs) = (read_log hex log ≡ got (view log)) × AreRead logs

  -- The entries hold these logs, block by block.
  abbrev pub Hold : List (Entry hex.Hash) → List (List Json) → Type 0
  Hold [] [] = Unit
  Hold (e ∷ entries) (logs ∷ blocks) =
      (e.value ≡ arr (of_list logs)) × AreRead logs × Hold entries blocks
  Hold _ _ = ⊥

  abbrev pub all_logs : List (List Json) → List Json
  all_logs [] = []
  all_logs (logs ∷ blocks) = logs ++ all_logs blocks

  abbrev keep : Option (CompiledFilter hex.Address hex.Hash) → List Json → List Json
  keep c = filter dec_a dec_h view c

  keep-cons :
      (c : Option (CompiledFilter hex.Address hex.Hash)) (log : Json) (logs : List Json)
      → keep c (log ∷ logs)
        ≡ (if check dec_a dec_h c (view log) then log ∷ keep c logs else keep c logs)
  unfolding filter check
  keep-cons none log logs = refl
  keep-cons (some c) log logs = refl

  nothing_kept :
      (c : Option (CompiledFilter hex.Address hex.Hash))
      → got [] ≡ got (filter dec_a dec_h view c [])
  unfolding filter
  nothing_kept none = refl
  nothing_kept (some c) = refl

  module _ (c : Option (CompiledFilter hex.Address hex.Hash)) where
    put_log-keep :
        (log : Json) (logs : List Json)
        → put_log hex dec_a dec_h c log (view log) (got (keep c logs)) ≡ got (keep c (log ∷ logs))
    put_log-keep log logs = ground (arith, keep-cons c log logs)

    filter_items-read :
        (logs later : List Json)
        → AreRead logs
        → filter_items hex dec_a dec_h c (of_list logs) (got (keep c later))
          ≡ got (keep c (logs ++ later))
    unfolding filter_items of_list
    filter_items-read [] later h = refl
    filter_items-read (log ∷ logs) later h =
        rw (h.0, filter_items-read logs later h.1) (put_log-keep log (logs ++ later))

    -- Where every entry holds a list of logs and every log can be read, the answer to
    -- `eth_getLogs` is what `CompiledFilter.Filter` keeps of all of them, in order.
    pub filter_entries-filter :
        (entries : List (Entry hex.Hash)) (blocks : List (List Json))
        → Hold entries blocks
        → filter_entries hex dec_a dec_h c entries
          ≡ got (filter dec_a dec_h view c (all_logs blocks))
    unfolding filter_entries
    filter_entries-filter [] [] h = nothing_kept c
    filter_entries-filter [] (logs ∷ blocks) h = absurd h
    filter_entries-filter (e ∷ entries) [] h = absurd h
    filter_entries-filter (e ∷ entries) (logs ∷ blocks) h =
        rw (h.0, filter_entries-filter entries blocks h.2)
          (filter_items-read logs (all_logs blocks) h.1)
