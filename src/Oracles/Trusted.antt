-- ===== src/Oracles/Trusted.antt =====
-- How far the oracles of lib/oracles/oracle.go can be led astray by some of those that they ask.
use mathlib.Core.Path.{subst}
use venn.Prelude.{
  ℕ, zero, suc, ◌+◌, ◌*◌, ◌/◌, ◌≤◌, ◌<◌, ◌≡◌, refl, sym, ap, inl, inr, Bool, true, false, Option,
  none, some, List, [], ◌∷◌, arith, length, get_elem?, Bool-cases, some-injective,
}
use venn.Prelude.Order.{
  Ordered, sort, IsSorted, AllOf, count, count_le, count-sort, length-sort, sort-IsSorted,
}
use venn.Rpc.{Error, ok}
use venn.Oracles.{Oracle, gather, indexed, median, median_oracle}

bool_ne : {b : Bool} → b ≡ true → b ≡ false → ⊥
bool_ne p q = ground arith

module _ {A : Type 0} ⦃o : Ordered A⦄ where
  AllOf-false :
      (v hi : A) (xs : List A)
      → o.le v hi ≡ false
      → AllOf (o.le v) xs
      → count (λ x. o.le x hi) xs ≡ 0
  AllOf-false v hi [] h a = refl
  AllOf-false v hi (x ∷ xs) h (e, a) = elim (Bool-cases (o.le x hi)) [
    | inl k ↦ absurd (bool_ne (o.trans v x hi e k) h)
    | inr k ↦ rw k (AllOf-false v hi xs h a)
  ]

  get-AllOf :
      (p : A → Bool) (xs : List A) (k : ℕ) (v : A)
      → AllOf p xs
      → get_elem? xs k ≡ some v
      → p v ≡ true
  get-AllOf p [] k v a e = absurd (ground arith)
  get-AllOf p (x ∷ xs) zero v (h, a) e = subst (λ y. p y ≡ true) (some-injective _ _ e) h
  get-AllOf p (x ∷ xs) (suc k) v (h, a) e = get-AllOf p xs k v a e

  -- In an ascending list, what is too small at the index k leaves at most the rest for those that are not.
  count-above :
      (lo v : A) (xs : List A) (k : ℕ)
      → IsSorted xs
      → get_elem? xs k ≡ some v
      → o.le lo v ≡ false
      → count (o.le lo) xs + suc k ≤ length xs
  count-above lo v [] k s e h = absurd (ground arith)
  count-above lo v (x ∷ xs) zero (a, s) e h =
      let same = some-injective _ _ e in ground (arith, count_le (o.le lo) xs)
  count-above lo v (x ∷ xs) (suc k) (a, s) e h = elim (Bool-cases (o.le lo x)) [
    | inl j ↦ absurd (bool_ne (o.trans lo x v j (get-AllOf (o.le x) xs k v a e)) h)
    | inr j ↦ rw j (omega (arith, count-above lo v xs k s e h))
  ]

  count-below :
      (hi v : A) (xs : List A) (k : ℕ)
      → IsSorted xs
      → get_elem? xs k ≡ some v
      → o.le v hi ≡ false
      → count (λ x. o.le x hi) xs ≤ k
  count-below hi v [] k s e h = absurd (ground arith)
  count-below hi v (x ∷ xs) zero (a, s) e h =
      let same = some-injective _ _ e in
      let none_below = AllOf-false x hi xs (subst (λ y. o.le y hi ≡ false) (sym same) h) a in
      ground arith
  count-below hi v (x ∷ xs) (suc k) (a, s) e h =
      let rec = count-below hi v xs k s e h in ground arith

  get-some : (xs : List A) (k : ℕ) → k < length xs → (v : A) × (get_elem? xs k ≡ some v)
  get-some [] k h = absurd (omega arith)
  get-some (x ∷ xs) zero h = (x, refl)
  get-some (x ∷ xs) (suc k) h = get-some xs k (omega arith)

  -- More than half of the answers lie between the two.
  abbrev pub Majority : A → A → List A → Type 0
  Majority lo hi xs =
      (length xs < 2 * count (o.le lo) xs) × (length xs < 2 * count (λ x. o.le x hi) xs)

  middle-between :
      (lo hi v : A) (xs : List A)
      → Majority lo hi xs
      → get_elem? (sort xs) (length xs / 2) ≡ some v
      → (o.le lo v ≡ true) × (o.le v hi ≡ true)
  middle-between lo hi v xs (ml, mh) e = (
    elim (Bool-cases (o.le lo v)) [
      | inl k ↦ k
      | inr k ↦ absurd (
          omega (
            arith,
            count-above lo v (sort xs) (length xs / 2) (sort-IsSorted xs) e k,
            count-sort (o.le lo) xs,
            length-sort xs,
          ))
    ],
    elim (Bool-cases (o.le v hi)) [
      | inl k ↦ k
      | inr k ↦ absurd (
          omega (
            arith,
            count-below hi v (sort xs) (length xs / 2) (sort-IsSorted xs) e k,
            count-sort (λ x. o.le x hi) xs,
          ))
    ],
  )

  median-between :
      (t lo hi : A) (xs : List A) (merr : Option Error)
      → Majority lo hi xs
      → (v : A) × ((median t xs merr ≡ some (ok v)) × ((o.le lo v ≡ true) × (o.le v hi ≡ true)))
  unfolding median
  median-between t lo hi [] merr m = absurd (omega (arith, m.0))
  median-between t lo hi (x ∷ xs) merr m =
      let (v, e) =
        get-some (sort (x ∷ xs)) (length (x ∷ xs) / 2) (omega (arith, length-sort (x ∷ xs))) in
      (v, (ap indexed e, middle-between lo hi v (x ∷ xs) m e))

  -- If more than half of the oracles' answers lie between lo and hi, the median oracle answers, and its
  -- answer lies between lo and hi.
  pub median_oracle-between :
      {S : Type 0} (append : Option Error → Error → Error) (t lo hi : A) (os : List (Oracle A S))
      (s : S)
      → Majority lo hi ((gather append os none s).0.0)
      → (v : A) × (((median_oracle append t os s).0 ≡ some (ok v))
          × ((o.le lo v ≡ true) × (o.le v hi ≡ true)))
  unfolding median_oracle
  median_oracle-between append t lo hi os s m =
      median-between t lo hi ((gather append os none s).0.0) ((gather append os none s).0.1) m
