-- ===== src/Stores/Rediblock/Kept.antt =====
-- What svc/node/stores/vennstores/rediblock/module.go keeps of the entries that are put, and forgets.
use venn.Prelude.{
  ℕ, suc, ◌<◌, ◌≡◌, ◌≢◌, refl, ap, ◌∙◌, String, Bool, true, false, not, Option, none, some, List,
  [], ◌∷◌, map, length, arith, ◌==◌, str_eq, if◌then◌else◌,
}
use venn.Rpc.{Error, Chain, Hexutil, ok}
use venn.Stores.Blocks.{EntryType, Entry}
use venn.Stores.Rediblock.{
  Outcome, Outcomes, done, refused, lost, Family, setex, block_seconds, Keys, read_range,
  check_reorg, parents, add_entry, add_entries, command, drop_numbers, reorg, failure,
  check_parents, put,
}

module _ {V : Type 0} (typ : EntryType) (n : ℕ) (exp : ℕ) (v : V) (f : Family ℕ V) where
  setex-other : {m : ℕ} → n ≢ m → setex (λ a b. a == b) typ n exp v f typ m ≡ f typ m
  setex-other h = ground arith

  setex-same :
      {m : ℕ}
      → n ≡ m
      → setex (λ a b. a == b) typ n exp v f typ m ≡ some (record { seconds = exp; value = v })
  setex-same e = ground arith

module _ (hex : Hexutil) (dec : Discrete hex.Hash) where
  abbrev pub Ks : Type 0
  Ks = Keys hex dec

  -- The entries have the numbers from this one on.
  abbrev pub Consecutive : ℕ → List (Entry hex.Hash) → Type 0
  Consecutive start [] = Unit
  Consecutive start (entry ∷ entries) =
      (entry.block_number ≡ start) × Consecutive (suc start) entries

  abbrev pub Absent : ℕ → List (Entry hex.Hash) → Type 0
  Absent n [] = Unit
  Absent n (entry ∷ entries) = (entry.block_number ≢ n) × Absent n entries

  Consecutive-Absent :
      (start n : ℕ) (entries : List (Entry hex.Hash))
      → Consecutive start entries
      → n < start
      → Absent n entries
  Consecutive-Absent start n [] c h = tt
  Consecutive-Absent start n (entry ∷ entries) (e, c) h =
      (λ e'. omega arith, Consecutive-Absent (suc start) n entries c (omega arith))

  -- Two states agree on what is stored for a number.
  abbrev pub SameAt : EntryType → ℕ → Ks → Ks → Type 0
  SameAt typ n k l =
      (k.number_value typ n ≡ l.number_value typ n) × (k.number_hash typ n ≡ l.number_hash typ n)

  abbrev pub stored : Entry hex.Hash → Entry hex.Hash
  stored entry = record entry { parent_hash = none }

  module _ (seconds : ℕ) (typ : EntryType) where
    pub add_entries-other :
        (n : ℕ) (entries : List (Entry hex.Hash)) (k : Ks)
        → Absent n entries
        → SameAt typ n (add_entries hex dec seconds typ entries k) k
    unfolding add_entries add_entry
    add_entries-other n [] k a = (refl, refl)
    add_entries-other n (entry ∷ entries) k (h, a) =
        let (v, t) = add_entries-other n entries (add_entry hex dec seconds typ entry k) a in
        (
          v ∙ setex-other typ entry.block_number _ _ k.number_value h,
          t ∙ setex-other typ entry.block_number _ _ k.number_hash h,
        )

    pub read_range-add_entries :
        (start : ℕ) (entries : List (Entry hex.Hash)) (k : Ks)
        → Consecutive start entries
        → read_range hex dec typ (length entries) start (add_entries hex dec seconds typ entries k)
          ≡ ok (map stored entries)
    unfolding add_entries add_entry read_range
    read_range-add_entries start [] k c = refl
    read_range-add_entries start (entry ∷ entries) k (e, c) =
        let (v, t) =
          add_entries-other start entries (add_entry hex dec seconds typ entry k)
            (Consecutive-Absent (suc start) start entries c (omega arith)) in
        rw
          (
            v ∙ setex-same typ entry.block_number _ _ k.number_value e,
            t ∙ setex-same typ entry.block_number _ _ k.number_hash e,
            read_range-add_entries (suc start) entries (add_entry hex dec seconds typ entry k) c,
            hex.hex_to_hash-encode entry.block_hash,
            ← e,
          )
          refl

  abbrev pub Reply : Type 0
  Reply = Option Error × Ks

  -- A reply without an error has this state.
  abbrev pub Gives : Ks → Reply → Type 0
  Gives k reply = reply.0 ≡ none → reply.1 ≡ k

  command-Gives :
      (outcome : Outcome) (f : Ks → Ks) (k : Ks) → Gives (f k) (command hex dec outcome f k)
  command-Gives done f k h = refl
  command-Gives (refused e) f k h = absurd (ground arith)
  command-Gives (lost e) f k h = refl

  reorg-Gives :
      (listed deleted : Outcome) (k : Ks)
      → Gives (drop_numbers hex dec k) (reorg hex dec listed deleted k)
  unfolding reorg
  reorg-Gives done deleted k h = command-Gives deleted (drop_numbers hex dec) k h
  reorg-Gives (refused e) deleted k h = absurd (ground arith)
  reorg-Gives (lost e) deleted k h = absurd (ground arith)

  abbrev gate : Option Error → Bool → Reply → Ks → Reply
  gate refusal clean forget k = elim refusal [
    | some e ↦ (some e, k)
    | none ↦ if clean then (none, k) else forget
  ]

  gate-Gives :
      (refusal : Option Error) (clean : Bool) (forget : Reply) (k l : Ks)
      → Gives l forget
      → Gives (if not clean then l else k) (gate refusal clean forget k)
  gate-Gives none true forget k l g h = refl
  gate-Gives none false forget k l g h = g h
  gate-Gives (some e) clean forget k l g h = absurd (ground arith)

  module _ (o : Outcomes) (typ : EntryType) (k : Ks) where
    -- The keys to which the entries are added.
    abbrev pub base : List (ℕ × String) → Ks
    base ps = if not (str_eq (check_reorg hex dec typ ps k) "") then drop_numbers hex dec k else k

    check_parents-base :
        (ps : List (ℕ × String)) → Gives (base ps) (check_parents hex dec o typ ps k)
    unfolding check_parents check_reorg
    check_parents-base [] h = refl
    check_parents-base (p ∷ ps) h =
        gate-Gives (failure hex dec o.check) (str_eq (check_reorg hex dec typ (p ∷ ps) k) "")
          (reorg hex dec o.list o.delete k) k (drop_numbers hex dec k)
          (reorg-Gives o.list o.delete k) h

    abbrev then_add : Outcome → (Ks → Ks) → Reply → Reply
    then_add added f reply = elim reply.0 [
      | some x ↦ (some x, reply.1)
      | none ↦ command hex dec added f reply.1
    ]

    then_add-Gives :
        (added : Outcome) (f : Ks → Ks) (reply : Reply) (l : Ks)
        → Gives l reply
        → Gives (f l) (then_add added f reply)
    then_add-Gives added f (none, k') l g h = command-Gives added f k' h ∙ ap f (g refl)
    then_add-Gives added f (some e, k') l g h = absurd (ground arith)

    pub put-base :
        (chain : Chain) (entries : List (Entry hex.Hash))
        → Gives
            (add_entries hex dec (block_seconds chain) typ entries (base (parents hex dec entries)))
            (put hex dec o chain typ entries k)
    unfolding put
    put-base chain entries h =
        then_add-Gives o.add (add_entries hex dec (block_seconds chain) typ entries)
          (check_parents hex dec o typ (parents hex dec entries) k) (base (parents hex dec entries))
          (check_parents-base (parents hex dec entries)) h
