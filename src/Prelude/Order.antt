-- ===== src/Prelude/Order.antt =====
-- Linear orders as Boolean tests, counts, and sorting: `slices.Sort` and `sort.Slice`, whose result is
-- the one ascending list with the given elements.
use mathlib.Core.List.{Perm, Permᴰ}
use mathlib.Core.Logic.{∥∥₁_elim}
use venn.Prelude.{
  ℕ, suc, ◌≤◌, ◌≡◌, refl, ap, ◌∙◌, inl, inr, Bool, true, false, List, [], ◌∷◌, arith, if◌then◌else◌,
  length, leb, Bool-cases, ◌++◌, ◌+◌,
}

-- `cmp.Ordered`, by `a <= b`.
pub record Ordered {ℓ} (A : Type ℓ) : Type ℓ where
  pub le : A → A → Bool
  pub total : (a b : A) → le a b ≡ false → le b a ≡ true
  pub trans : (a b c : A) → le a b ≡ true → le b c ≡ true → le a c ≡ true

pub leb-total : (a b : ℕ) → leb a b ≡ false → leb b a ≡ true
leb-total a b h = ground arith

pub leb_trans : (a b c : ℕ) → leb a b ≡ true → leb b c ≡ true → leb a c ≡ true
leb_trans a b c h i = ground arith

instance abbrev pub ℕ_ordered : Ordered ℕ
ℕ_ordered = record { le = leb; total = leb-total; trans = leb_trans }

module _ {ℓ} {A : Type ℓ} where
  abbrev pub count : (A → Bool) → List A → ℕ
  count p [] = 0
  count p (x ∷ xs) = if p x then suc (count p xs) else count p xs

  abbrev pub AllOf : (A → Bool) → List A → Type 0
  AllOf p [] = Unit
  AllOf p (x ∷ xs) = (p x ≡ true) × AllOf p xs

  pub count_le : (p : A → Bool) (xs : List A) → count p xs ≤ length xs
  count_le p [] = omega arith
  count_le p (x ∷ xs) = let rec = count_le p xs in ground arith

  pub count-AllOf : (p : A → Bool) (xs : List A) → AllOf p xs → count p xs ≡ length xs
  count-AllOf p [] a = refl
  count-AllOf p (x ∷ xs) (e, a) = rw e (ap suc (count-AllOf p xs a))

ℕ-IsSet : IsSet ℕ
ℕ-IsSet = hlevel

module _ {A : Type 0} where
  pub count-append : (p : A → Bool) (xs ys : List A) → count p (xs ++ ys) ≡ count p xs + count p ys
  count-append p [] ys = omega arith
  count-append p (x ∷ xs) ys = let rec = count-append p xs ys in ground arith

  count-swap : (p : A → Bool) (a b : A) (l : List A) → count p (a ∷ (b ∷ l)) ≡ count p (b ∷ (a ∷ l))
  count-swap p a b l = ground arith

  count-permᴰ : (p : A → Bool) {xs ys : List A} → Permᴰ xs ys → count p xs ≡ count p ys
  count-permᴰ p Permᴰ.nil = refl
  count-permᴰ p (Permᴰ.cons {a} {b} {l₁} {l₂} e d) =
      ap (λ (n : ℕ). if p a then suc n else n) (count-permᴰ p d) ∙ ap (λ x. count p (x ∷ l₂)) e
  count-permᴰ p (Permᴰ.swap {a} {b} {a'} {b'} {l} e f) =
      count-swap p a b l ∙ ap (λ x. count p (x ∷ (a ∷ l))) f ∙ ap (λ x. count p (a' ∷ (x ∷ l))) e
  count-permᴰ p (Permᴰ.trans d e) = count-permᴰ p d ∙ count-permᴰ p e

  pub count-perm : (p : A → Bool) (xs ys : List A) → Perm xs ys → count p xs ≡ count p ys
  count-perm p xs ys q = ∥∥₁_elim q (ℕ-IsSet _ _) (λ d. count-permᴰ p d)

module _ {ℓ} {A : Type ℓ} ⦃o : Ordered A⦄ where
  abbrev pub IsSorted : List A → Type 0
  IsSorted [] = Unit
  IsSorted (x ∷ xs) = AllOf (o.le x) xs × IsSorted xs

  unfoldable pub insert_sorted : A → List A → List A
  insert_sorted x [] = x ∷ []
  insert_sorted x (y ∷ ys) =
      let rest = insert_sorted x ys in if o.le x y then x ∷ (y ∷ ys) else y ∷ rest

  unfoldable pub sort : List A → List A
  unfolding insert_sorted
  sort [] = []
  sort (x ∷ xs) = insert_sorted x (sort xs)

  AllOf-trans : (a b : A) (xs : List A) → o.le a b ≡ true → AllOf (o.le b) xs → AllOf (o.le a) xs
  AllOf-trans a b [] h u = tt
  AllOf-trans a b (x ∷ xs) h (e, u) = (o.trans a b x h e, AllOf-trans a b xs h u)

  AllOf-insert_sorted :
      (a x : A) (ys : List A)
      → o.le a x ≡ true
      → AllOf (o.le a) ys
      → AllOf (o.le a) (insert_sorted x ys)
  unfolding insert_sorted
  AllOf-insert_sorted a x [] h u = (h, tt)
  AllOf-insert_sorted a x (y ∷ ys) h (e, u) = elim (Bool-cases (o.le x y)) [
    | inl k ↦ rw k (h, (e, u))
    | inr k ↦ rw k (e, AllOf-insert_sorted a x ys h u)
  ]

  insert_sorted-IsSorted : (x : A) (ys : List A) → IsSorted ys → IsSorted (insert_sorted x ys)
  unfolding insert_sorted
  insert_sorted-IsSorted x [] s = (tt, tt)
  insert_sorted-IsSorted x (y ∷ ys) (u, s) = elim (Bool-cases (o.le x y)) [
    | inl k ↦ rw k ((k, AllOf-trans x y ys k u), (u, s))
    | inr k ↦ rw k (AllOf-insert_sorted y x ys (o.total x y k) u, insert_sorted-IsSorted x ys s)
  ]

  pub sort-IsSorted : (xs : List A) → IsSorted (sort xs)
  unfolding sort
  sort-IsSorted [] = tt
  sort-IsSorted (x ∷ xs) = insert_sorted-IsSorted x (sort xs) (sort-IsSorted xs)

  count-insert_sorted :
      (p : A → Bool) (x : A) (ys : List A) → count p (insert_sorted x ys) ≡ count p (x ∷ ys)
  unfolding insert_sorted
  count-insert_sorted p x [] = refl
  count-insert_sorted p x (y ∷ ys) = let rec = count-insert_sorted p x ys in ground arith

  -- Sorting keeps how many elements pass any test.
  pub count-sort : (p : A → Bool) (xs : List A) → count p (sort xs) ≡ count p xs
  unfolding sort
  count-sort p [] = refl
  count-sort p (x ∷ xs) =
      count-insert_sorted p x (sort xs) ∙ ap (λ (n : ℕ). if p x then suc n else n) (count-sort p xs)

  length-insert_sorted : (x : A) (ys : List A) → length (insert_sorted x ys) ≡ suc (length ys)
  unfolding insert_sorted
  length-insert_sorted x [] = refl
  length-insert_sorted x (y ∷ ys) = let rec = length-insert_sorted x ys in ground arith

  pub length-sort : (xs : List A) → length (sort xs) ≡ length xs
  unfolding sort
  length-sort [] = refl
  length-sort (x ∷ xs) = length-insert_sorted x (sort xs) ∙ ap suc (length-sort xs)

pub le_refl : {A : Type 0} ⦃o : Ordered A⦄ (a : A) → o.le a a ≡ true
le_refl ⦃o⦄ a = elim (Bool-cases (o.le a a)) [ inl k ↦ k | inr k ↦ o.total a a k ]
