-- ===== src/Stores/Rediblock/Reorg.antt =====
-- `checkReorgScript` of svc/node/stores/vennstores/rediblock/module.go against what a reorg is.
use venn.Prelude.{
  ℕ, ◌≡◌, ◌≢◌, ◌↔◌, ◌⊎◌, inl, inr, refl, String, some, List, [], ◌∷◌, arith, str_eq, str_eq_iff,
  Bool-cases, Option-cases, sym, ap, ◌∙◌, some-injective,
}
use venn.Rpc.{Hexutil}
use venn.Middlewares.LookBack.{sub_uint64}
use venn.Stores.Blocks.{EntryType, Entry}
use venn.Stores.Rediblock.{Expiring, Keys, check_reorg, parents}

module _ (hex : Hexutil) (dec : Discrete hex.Hash) (typ : EntryType) (k : Keys hex dec) where
  -- The entry has a parent, and the block before it another hash in Redis.
  abbrev pub Against : Entry hex.Hash → Type 0
  Against entry =
      (parent : hex.Hash) × ((entry.parent_hash ≡ some parent)
        × ((v : Expiring String) × ((k.number_hash typ (sub_uint64 entry.block_number 1) ≡ some v)
              × (v.value ≢ hex.encode_hash parent))))

  abbrev pub Contradicted : List (Entry hex.Hash) → Type 0
  Contradicted [] = ⊥
  Contradicted (entry ∷ entries) = Against entry ⊎ Contradicted entries

  module _
      (full : (m : ℕ) (v : Expiring String) → k.number_hash typ m ≡ some v → v.value ≢ "") where
    check_reorg-same :
        (n : ℕ) (expected : String) (rest : List (ℕ × String))
        → ((v : Expiring String) → k.number_hash typ n ≡ some v → v.value ≡ expected)
        → check_reorg hex dec typ ((n, expected) ∷ rest) k ≡ check_reorg hex dec typ rest k
    unfolding check_reorg
    check_reorg-same n expected rest h = elim (Option-cases (k.number_hash typ n)) [
      | inl e ↦ rw (e, check_reorg) refl
      | inr (v, e) ↦ rw (e, (str_eq_iff v.value expected).1 (h v e), check_reorg) refl
    ]

    check_reorg-other :
        (n : ℕ) (expected : String) (rest : List (ℕ × String)) (v : Expiring String)
        → k.number_hash typ n ≡ some v
        → v.value ≢ expected
        → check_reorg hex dec typ ((n, expected) ∷ rest) k ≡ v.value
    unfolding check_reorg
    check_reorg-other n expected rest v e other = elim (Bool-cases (str_eq v.value expected)) [
      | inl j ↦ absurd (other ((str_eq_iff v.value expected).0 j))
      | inr j ↦ rw (e, j, check_reorg) refl
    ]

    check_reorg-nil : check_reorg hex dec typ [] k ≡ ""
    unfolding check_reorg
    check_reorg-nil = refl

    -- The entry contradicts nothing, or what Redis has contradicts it.
    agrees :
        (n : ℕ) (expected : String)
        → ((v : Expiring String) → k.number_hash typ n ≡ some v → v.value ≡ expected)
          ⊎ ((v : Expiring String) × ((k.number_hash typ n ≡ some v) × (v.value ≢ expected)))
    agrees n expected = elim (Option-cases (k.number_hash typ n)) [
      | inl e ↦ inl (λ v h. absurd (ground (arith, e, h)))
      | inr (v, e) ↦ elim (Bool-cases (str_eq v.value expected)) [
        | inl j ↦ inl (λ w h.
            let same : v ≡ w = some-injective _ _ (sym e ∙ h) in
            ap (λ (x : Expiring String). x.value) (sym same) ∙ (str_eq_iff v.value expected).0 j)
        | inr j ↦ inr (v, (e, λ h. ground (arith, (str_eq_iff v.value expected).1 h)))
      ]
    ]

    -- The script finds a reorg exactly if the hash before one of the entries is not that of its parent.
    pub check_reorg_iff :
        (entries : List (Entry hex.Hash))
        → (check_reorg hex dec typ (parents hex dec entries) k ≢ "") ↔ Contradicted entries
    unfolding parents
    check_reorg_iff [] = (λ h. h (check_reorg-nil), λ h. absurd h)
    check_reorg_iff (entry ∷ entries) =
        let rec = check_reorg_iff entries in
        elim (Option-cases entry.parent_hash) [
          | inl e ↦ rw e (
            λ h. inr (rec.0 h),
            λ h. elim h [ inl (p, (q, x)) ↦ absurd (ground arith) | inr c ↦ rec.1 c ],
          )
          | inr (parent, e) ↦
              let n = sub_uint64 entry.block_number 1 in
              let expected = hex.encode_hash parent in
              elim (agrees n expected) [
                | inl fine ↦
                    rw (e, check_reorg-same n expected (parents hex dec entries) fine)
                      (
                        λ h. inr (rec.0 h),
                        λ h. elim h [
                          | inl (p, (q, (v, (at, ne)))) ↦
                              absurd (ne (fine v at ∙ ap hex.encode_hash (some-injective _ _ q)))
                          | inr c ↦ rec.1 c
                        ],
                      )
                | inr (v, (at, ne)) ↦
                    rw (e, check_reorg-other n expected (parents hex dec entries) v at ne)
                      (λ h. inl (parent, (refl, (v, (at, ne)))), λ h. full n v at)
              ]
        ]
