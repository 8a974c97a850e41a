-- ===== src/Oracles/Trimmed.antt =====
-- What MaxTrimOracle of lib/oracles/oracle.go leaves of the answers, the highest of them trimmed.
use mathlib.Core.Path.{subst}
use venn.Prelude.{
  ℕ, suc, ◌≤◌, ◌≡◌, refl, sym, ap, ◌∙◌, ◌⊎◌, inl, inr, Bool, true, false, Option, none, List, [],
  ◌∷◌, arith, length, leb, if◌then◌else◌, Bool-cases,
}
use venn.Prelude.Order.{
  Ordered, sort, IsSorted, AllOf, count, count-sort, length-sort, sort-IsSorted, le_refl,
}
use venn.Rpc.{Error, ok}
use venn.Oracles.{Oracle, gather, highest, drop_last, tail, trim, max_trim, max_trim_oracle}

leb-true : (a b : ℕ) → a ≤ b → leb a b ≡ true
leb-true a b h = ground arith

module _ {A : Type 0} ⦃o : Ordered A⦄ where
  highest-skip : (t b x : A) (xs : List A) → o.le x b ≡ true → highest t b xs ≡ highest t b (x ∷ xs)
  unfolding highest
  highest-skip t b x xs k = rw k refl

  highest-take :
      (t b x : A) (xs : List A) → o.le x b ≡ false → highest t x xs ≡ highest t b (x ∷ xs)
  unfolding highest
  highest-take t b x xs k = rw k refl

  highest-AllOf :
      (t b r : A) (xs : List A) → highest t b xs ≡ r → (o.le b r ≡ true) × AllOf (λ x. o.le x r) xs
  unfolding highest
  highest-AllOf t b r [] e = (subst (λ y. o.le b y ≡ true) e (le_refl b), tt)
  highest-AllOf t b r (x ∷ xs) e = elim (Bool-cases (o.le x b)) [
    | inl k ↦
        let (h, a) = highest-AllOf t b r xs (highest-skip t b x xs k ∙ e) in
        (h, (o.trans x b r k h, a))
    | inr k ↦
        let (h, a) = highest-AllOf t x r xs (highest-take t b x xs k ∙ e) in
        (o.trans b x r (o.total x b k) h, (h, a))
  ]

  count-suc : (p : A → Bool) (x : A) (xs : List A) (n : ℕ) → n ≤ count p xs → n ≤ count p (x ∷ xs)
  count-suc p x xs n h = ground arith

  count-here : (p : A → Bool) (x : A) (xs : List A) → p x ≡ true → 1 ≤ count p (x ∷ xs)
  count-here p x xs e = ground arith

  -- The highest is what one started from or one of the list.
  highest-reached :
      (t b r : A) (xs : List A) → highest t b xs ≡ r → (r ≡ b) ⊎ (1 ≤ count (o.le r) xs)
  unfolding highest
  highest-reached t b r [] e = inl (sym e)
  highest-reached t b r (x ∷ xs) e = elim (Bool-cases (o.le x b)) [
    | inl k ↦ elim (highest-reached t b r xs (highest-skip t b x xs k ∙ e)) [
      | inl same ↦ inl same
      | inr m ↦ inr (count-suc (o.le r) x xs 1 m)
    ]
    | inr k ↦ elim (highest-reached t x r xs (highest-take t b x xs k ∙ e)) [
      | inl same ↦ inr (count-here (o.le r) x xs (subst (λ y. o.le r y ≡ true) same (le_refl r)))
      | inr m ↦ inr (count-suc (o.le r) x xs 1 m)
    ]
  ]

  count-not : (p : A → Bool) (x : A) (xs : List A) → p x ≡ false → count p (x ∷ xs) ≡ count p xs
  count-not p x xs e = rw e refl

  -- What the first element of a sorted list passes, all pass.
  count-last :
      (v x : A) (xs : List A)
      → IsSorted (x ∷ xs)
      → o.le v x ≡ true
      → suc (count (o.le v) (drop_last (x ∷ xs))) ≤ count (o.le v) (x ∷ xs)
  count-last v x [] s k = rw k (omega arith)
  count-last v x (y ∷ ys) ((xy, a), s) k =
      rw k (omega (arith, count-last v y ys s (o.trans v x y k xy)))

  -- In a sorted list, what an element other than the last one passes, the last one passes too.
  count-drop_last :
      (v : A) (xs : List A)
      → IsSorted xs
      → 1 ≤ count (o.le v) (drop_last xs)
      → suc (count (o.le v) (drop_last xs)) ≤ count (o.le v) xs
  count-drop_last v [] s h = absurd (omega (arith, h))
  count-drop_last v (x ∷ []) s h = absurd (omega (arith, h))
  count-drop_last v (x ∷ (y ∷ ys)) ((xy, a), s) h = elim (Bool-cases (o.le v x)) [
    | inl k ↦ let last = count-last v y ys s (o.trans v x y k xy) in rw k (omega (arith, last))
    | inr k ↦
        let rec =
          count-drop_last v (y ∷ ys) s
            (subst (λ n. 1 ≤ n) (count-not (o.le v) x (drop_last (y ∷ ys)) k) h) in
        rw k rec
  ]

  AllOf-drop_last :
      (v : A) (xs : List A)
      → AllOf (λ x. o.le x v) (drop_last xs)
      → length xs ≤ suc (count (λ x. o.le x v) xs)
  AllOf-drop_last v [] a = omega arith
  AllOf-drop_last v (x ∷ []) a = ground arith
  AllOf-drop_last v (x ∷ (y ∷ ys)) (e, a) = let rec = AllOf-drop_last v (y ∷ ys) a in ground arith

  -- The value that is left of five or more sorted answers, without the lowest and the highest of them.
  abbrev pub Trimmed : A → A → List A → Type 0
  Trimmed t v xs =
      ((v ≡ t) ⊎ (2 ≤ count (o.le v) xs)) × (length xs ≤ suc (count (λ x. o.le x v) xs))

  Trimmed-sorted :
      (t r : A) (xs : List A)
      → IsSorted xs
      → 5 ≤ length xs
      → highest t t (drop_last (tail xs)) ≡ r
      → Trimmed t r xs
  Trimmed-sorted t r [] s h e = absurd (omega (arith, h))
  Trimmed-sorted t r (x ∷ []) s h e = absurd (omega (arith, h))
  Trimmed-sorted t r (x ∷ (y ∷ [])) s h e = absurd (omega (arith, h))
  Trimmed-sorted t r (x ∷ (y ∷ (z ∷ zs))) ((xy, a), s) h e =
      let (low, below) = highest-AllOf t t r (drop_last (y ∷ (z ∷ zs))) e in
      let most = AllOf-drop_last r (y ∷ (z ∷ zs)) below in
      (
        elim (highest-reached t t r (drop_last (y ∷ (z ∷ zs))) e) [
          | inl same ↦ inl same
          | inr m ↦ inr (
              count-suc (o.le r) x (y ∷ (z ∷ zs)) 2
                (let two = count-drop_last r (y ∷ (z ∷ zs)) s m in omega (arith, two, m)))
        ],
        rw (o.trans x y r xy (below.0)) (omega (arith, most)),
      )

  max_trim-Trimmed :
      (t : A) (xs : List A) (merr : Option Error)
      → 5 ≤ length xs
      → (v : A) × ((max_trim t xs merr ≡ ok v) × Trimmed t v xs)
  unfolding max_trim trim
  max_trim-Trimmed t [] merr h = absurd (omega (arith, h))
  max_trim-Trimmed t (x ∷ xs) merr h =
      let l = sort (x ∷ xs) in
      let r = highest t t (drop_last (tail l)) in
      let long : 5 ≤ length l = omega (arith, length-sort (x ∷ xs), h) in
      let (two, most) = Trimmed-sorted t r l (sort-IsSorted (x ∷ xs)) long refl in
      (
        r,
        (
          ap (λ k. ok (highest t t (if k then drop_last (tail l) else l)))
              (leb-true 5 (length l) long),
          (
            elim two [
              | inl same ↦ inl same
              | inr m ↦ inr (subst (λ n. 2 ≤ n) (count-sort (o.le r) (x ∷ xs)) m)
            ],
            omega (arith, most, count-sort (λ x. o.le x r) (x ∷ xs), length-sort (x ∷ xs)),
          ),
        ),
      )

  -- When five or more of its oracles answer, the trimming oracle answers with no error. Its answer is the
  -- zero value unless at least two of the answers are at least as high, and at most one of the answers is
  -- higher than it.
  pub max_trim_oracle-Trimmed :
      {S : Type 0} (append : Option Error → Error → Error) (t : A) (os : List (Oracle A S)) (s : S)
      → 5 ≤ length ((gather append os none s).0.0)
      → (v : A) × (((max_trim_oracle append t os s).0 ≡ ok v)
          × Trimmed t v ((gather append os none s).0.0))
  unfolding max_trim_oracle
  max_trim_oracle-Trimmed append t os s h =
      max_trim-Trimmed t ((gather append os none s).0.0) ((gather append os none s).0.1) h
