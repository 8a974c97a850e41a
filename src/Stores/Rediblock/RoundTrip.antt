-- ===== src/Stores/Rediblock/RoundTrip.antt =====
-- `Put` and then `Get` in svc/node/stores/vennstores/rediblock/module.go.
use venn.Prelude.{
  ℕ, suc, ◌+◌, ◌-◌, ◌*◌, ◌%◌, ◌^◌, ◌<◌, ◌≡◌, refl, Bool, true, false, not, none, some, List, ◌∷◌,
  map, length, arith, str_eq, if◌then◌else◌, ap, sym, ◌∙◌, ◌≢◌, ◌⊎◌, inl, inr, String, Bool-cases,
  str_eq_iff,
}
use venn.Rpc.{Chain, Hexutil, ok, err}
use venn.Middlewares.LookBack.{sub_uint64}
use venn.Stores.Blocks.{EntryType, Entry, range}
use venn.Stores.Rediblock.{
  Outcomes, done, block_seconds, read_range, get, check_reorg, parents, put, redis_nil,
  drop_numbers, Expiring,
}
use venn.Stores.Rediblock.Reorg.{Contradicted, check_reorg_iff}
use venn.Stores.Rediblock.Kept.{
  Ks, SameAt, Consecutive, Absent, stored, base, add_entries-other, read_range-add_entries,
  put-base,
}

span_lem : (start n : ℕ) → sub_uint64 (start + n) start ≡ n
unfolding sub_uint64
span_lem start n = ground arith

capacity : (n : ℕ) → suc n * 2 < 2 ^ 64 → (n + 1) * 2 % 2 ^ 64 ≡ suc n * 2
capacity n h = omega arith

capacity' : (n : ℕ) → suc n * 2 < 2 ^ 64 → (n + 1) % 2 ^ 64 ≡ suc n
capacity' n h = omega arith

count : (start n : ℕ) → suc (start + n) - start ≡ suc n
count start n = omega arith

same_span : (n : ℕ) → sub_uint64 n n ≡ 0
unfolding sub_uint64
same_span n = ground arith

same_count : (n : ℕ) → suc n - n ≡ 1
same_count n = omega arith

module _ (hex : Hexutil) (dec : Discrete hex.Hash) (fits : ℕ → Bool) (typ : EntryType) where
  get_fitting :
      (start n : ℕ) (k : Ks hex dec)
      → start + n < 2 ^ 64
      → suc n * 2 < 2 ^ 64
      → fits (suc n * 2) ≡ true
      → fits (suc n) ≡ true
      → get hex dec fits done typ (range start (start + n)) k
        ≡ some (read_range hex dec typ (suc n) start k)
  unfolding get
  get_fitting start n k small half fit fit' =
      rw (span_lem start n, capacity n half, capacity' n half, count start n, fit, fit') refl

  -- After a Put without an error of entries with consecutive numbers, a Get of the range of these
  -- numbers returns them all, in order and without their parents, whatever Redis held before, if the
  -- slices for the range can be made.
  pub put-get :
      (o : Outcomes) (chain : Chain) (start : ℕ) (entry : Entry hex.Hash)
      (entries : List (Entry hex.Hash)) (k : Ks hex dec)
      → Consecutive hex dec start (entry ∷ entries)
      → start + length entries < 2 ^ 64
      → suc (length entries) * 2 < 2 ^ 64
      → fits (suc (length entries) * 2) ≡ true
      → fits (suc (length entries)) ≡ true
      → (put hex dec o chain typ (entry ∷ entries) k).0 ≡ none
      → get hex dec fits done typ
          (range start (start + length entries))
          (put hex dec o chain typ (entry ∷ entries) k).1
        ≡ some (ok (map (stored hex dec) (entry ∷ entries)))
  put-get o chain start entry entries k c small half fit fit' h =
      rw (put-base hex dec o typ k chain (entry ∷ entries) h) (
        get_fitting start (length entries) _ small half fit fit'
        ∙ ap some (
            read_range-add_entries hex dec (block_seconds chain) typ start (entry ∷ entries)
              (base hex dec o typ k (parents hex dec (entry ∷ entries))) c))

  module _ (n : ℕ) (fit : fits 2 ≡ true) (fit' : fits 1 ≡ true) where
    get_number :
        (k : Ks hex dec)
        → get hex dec fits done typ (range n n) k ≡ some (read_range hex dec typ 1 n k)
    unfolding get
    get_number k = rw (same_span n, same_count n, fit, fit') refl

    read_range-SameAt :
        (k l : Ks hex dec)
        → SameAt hex dec typ n k l
        → read_range hex dec typ 1 n k ≡ read_range hex dec typ 1 n l
    unfolding read_range
    read_range-SameAt k l (v, t) = rw (v, t) refl

    get-forgotten :
        (clean : Bool) (k : Ks hex dec)
        → some (read_range hex dec typ 1 n (if not clean then drop_numbers hex dec k else k))
          ≡ (if clean then get hex dec fits done typ (range n n) k else some (err redis_nil))
    unfolding read_range
    get-forgotten true k = sym (get_number k)
    get-forgotten false k = refl

    -- After a Put without an error a number that none of the entries has is missing, if Redis had, for the
    -- block before one of the entries, another hash than the parent of that entry, and otherwise it is what it
    -- was before; provided that no hash that Redis holds is empty, and that slices of two can be made.
    pub put-forgets :
        (o : Outcomes) (chain : Chain) (entries : List (Entry hex.Hash)) (k : Ks hex dec)
        → Absent hex dec n entries
        → ((m : ℕ) (v : Expiring String) → k.number_hash typ m ≡ some v → v.value ≢ "")
        → (put hex dec o chain typ entries k).0 ≡ none
        → (Contradicted hex dec typ k entries
            × (get hex dec fits done typ (range n n) (put hex dec o chain typ entries k).1
                ≡ some (err redis_nil)))
          ⊎ ((¬ Contradicted hex dec typ k entries)
              × (get hex dec fits done typ (range n n) (put hex dec o chain typ entries k).1
                  ≡ get hex dec fits done typ (range n n) k))
    put-forgets o chain entries k a full h =
        let before = base hex dec o typ k (parents hex dec entries) in
        let found = check_reorg hex dec typ (parents hex dec entries) k in
        let kept : get hex dec fits done typ (range n n) (put hex dec o chain typ entries k).1 ≡ (
            if str_eq found ""
            then get hex dec fits done typ (range n n) k
            else some (err redis_nil)) =
          rw (put-base hex dec o typ k chain entries h) (
            get_number _
            ∙ ap some (
                read_range-SameAt _ _
                  (add_entries-other hex dec (block_seconds chain) typ n entries before a))
            ∙ get-forgotten (str_eq found "") k) in
        let same = check_reorg_iff hex dec typ k full entries in
        elim (Bool-cases (str_eq found "")) [
          | inl e ↦ inr (λ c. same.1 c ((str_eq_iff found "").0 e), kept ∙ rw e refl)
          | inr e ↦ inl (same.0 (λ c. ground (arith, (str_eq_iff found "").1 c)), kept ∙ rw e refl)
        ]
