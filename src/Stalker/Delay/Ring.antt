-- ===== src/Stalker/Delay/Ring.antt =====
-- Lists used as rings: reading from a place around to it, and writing there.
use mathlib.Core.List.{append_assoc, append-nil}
use venn.Prelude.{
  ℕ, zero, suc, ◌≤◌, ◌<◌, ◌≡◌, refl, sym, ap, ◌∙◌, List, [], ◌∷◌, ◌++◌, arith, length, take, drop,
  set,
}
use venn.Prelude.Int.{ℤ}

-- The elements from the oldest one on.
abbrev pub rotate : ℕ → List ℤ → List ℤ
rotate p nums = drop p nums ++ take p nums

pub take-set :
    (p : ℕ) (xs : List ℤ) (d : ℤ)
    → p < length xs
    → take (suc p) (set xs p d) ≡ take p xs ++ (d ∷ [])
take-set p [] d h = absurd (omega arith)
take-set zero (x ∷ xs) d h = refl
take-set (suc p) (x ∷ xs) d h = ap (λ (r : List ℤ). x ∷ r) (take-set p xs d (omega arith))

pub drop-set : (p : ℕ) (xs : List ℤ) (d : ℤ) → drop (suc p) (set xs p d) ≡ drop (suc p) xs
drop-set p [] d = refl
drop-set zero (x ∷ xs) d = refl
drop-set (suc p) (x ∷ xs) d = drop-set p xs d

pub drop_next :
    (p : ℕ) (xs ys : List ℤ) → p < length xs → drop 1 (drop p xs ++ ys) ≡ drop (suc p) xs ++ ys
drop_next p [] ys h = absurd (omega arith)
drop_next zero (x ∷ xs) ys h = refl
drop_next (suc p) (x ∷ xs) ys h = drop_next p xs ys (omega arith)

pub drop_all : (xs : List ℤ) → drop (length xs) xs ≡ []
drop_all [] = refl
drop_all (x ∷ xs) = drop_all xs

pub take_all : (xs : List ℤ) → take (length xs) xs ≡ xs
take_all [] = refl
take_all (x ∷ xs) = ap (λ (r : List ℤ). x ∷ r) (take_all xs)

-- Writing at the oldest element and going on by one drops the oldest element and appends the new one.
pub rotate-set :
    (p : ℕ) (xs : List ℤ) (d : ℤ)
    → p < length xs
    → rotate (suc p) (set xs p d) ≡ drop 1 (rotate p xs) ++ (d ∷ [])
rotate-set p xs d h =
    ap (λ (r : List ℤ). r ++ take (suc p) (set xs p d)) (drop-set p xs d)
    ∙ ap (λ (r : List ℤ). drop (suc p) xs ++ r) (take-set p xs d h)
    ∙ sym (append_assoc (drop (suc p) xs) (take p xs) (d ∷ []))
    ∙ ap (λ (r : List ℤ). r ++ (d ∷ [])) (sym (drop_next p xs (take p xs) h))

pub rotate_all : (xs : List ℤ) → rotate (length xs) xs ≡ xs
rotate_all xs = ap (λ (r : List ℤ). r ++ take (length xs) xs) (drop_all xs) ∙ take_all xs

pub drop-suc : (n : ℕ) (xs : List ℤ) → drop 1 (drop n xs) ≡ drop (suc n) xs
drop-suc zero [] = refl
drop-suc (suc n) [] = refl
drop-suc zero (x ∷ xs) = refl
drop-suc (suc n) (x ∷ xs) = drop-suc n xs

pub drop-append : (n : ℕ) (xs ys : List ℤ) → n ≤ length xs → drop n (xs ++ ys) ≡ drop n xs ++ ys
drop-append zero xs ys h = refl
drop-append (suc n) [] ys h = absurd (omega arith)
drop-append (suc n) (x ∷ xs) ys h = drop-append n xs ys (omega arith)

pub rotate_zero : (xs : List ℤ) → rotate 0 xs ≡ xs
rotate_zero xs = append-nil xs
