-- ===== src/Subscriptions/Ranges.antt =====
-- Consecutive blocks, for the subscriptions of svc/node/atoms/subcenter/component.go.
use mathlib.Core.List.{append_assoc}
use venn.Prelude.{ℕ, zero, suc, ◌+◌, ◌-◌, ◌≤◌, ◌≡◌, refl, ap, ◌∙◌, List, [], ◌∷◌, ◌++◌, arith}
use venn.Rpc.{Json}
use venn.Stores.Blocks.Recent.Sound.{from}

pub from-eq : (i j m n : ℕ) → i ≡ j → m ≡ n → from i m ≡ from j n
from-eq i j m n p q = cc

from-append : (i m k : ℕ) → from i m ++ from (i + m) k ≡ from i (m + k)
from-append i zero k = from-eq (i + zero) i k (zero + k) (omega arith) (omega arith)
from-append i (suc m) k =
    ap (λ (l : List ℕ). i ∷ (from (suc i) m ++ l))
      (from-eq (i + suc m) (suc i + m) k k (omega arith) refl)
    ∙ ap (◌∷◌ i) (from-append (suc i) m k)
    ∙ from-eq i i (suc (m + k)) (suc m + k) refl (omega arith)

pub from-split :
    (a b c : ℕ)
    → a ≤ b
    → b ≤ c
    → from (suc a) (b - a) ++ from (suc b) (c - b) ≡ from (suc a) (c - a)
from-split a b c h k =
    ap (◌++◌ (from (suc a) (b - a)))
      (from-eq (suc b) (suc a + (b - a)) (c - b) (c - b) (omega arith) refl)
    ∙ from-append (suc a) (b - a) (c - b)
    ∙ from-eq (suc a) (suc a) ((b - a) + (c - b)) (c - a) refl (omega arith)

-- The logs of `m` blocks from `i` on.
abbrev pub logs_from : (ℕ → List Json) → ℕ → ℕ → List Json
logs_from per i zero = []
logs_from per i (suc m) = per i ++ logs_from per (suc i) m

pub logs_from-eq :
    (per : ℕ → List Json) (i j m n : ℕ) → i ≡ j → m ≡ n → logs_from per i m ≡ logs_from per j n
logs_from-eq per i j m n p q = cc

logs_from-append :
    (per : ℕ → List Json) (i m k : ℕ)
    → logs_from per i m ++ logs_from per (i + m) k ≡ logs_from per i (m + k)
logs_from-append per i zero k =
    logs_from-eq per (i + zero) i k (zero + k) (omega arith) (omega arith)
logs_from-append per i (suc m) k =
    append_assoc (per i) (logs_from per (suc i) m) (logs_from per (i + suc m) k)
    ∙ ap (λ (l : List Json). per i ++ (logs_from per (suc i) m ++ l))
        (logs_from-eq per (i + suc m) (suc i + m) k k (omega arith) refl)
    ∙ ap (◌++◌ (per i)) (logs_from-append per (suc i) m k)
    ∙ logs_from-eq per i i (suc (m + k)) (suc m + k) refl (omega arith)

pub logs_from-split :
    (per : ℕ → List Json) (a b c : ℕ)
    → a ≤ b
    → b ≤ c
    → logs_from per (suc a) (b - a) ++ logs_from per (suc b) (c - b) ≡ logs_from per (suc a) (c - a)
logs_from-split per a b c h k =
    ap (◌++◌ (logs_from per (suc a) (b - a)))
      (logs_from-eq per (suc b) (suc a + (b - a)) (c - b) (c - b) (omega arith) refl)
    ∙ logs_from-append per (suc a) (b - a) (c - b)
    ∙ logs_from-eq per (suc a) (suc a) ((b - a) + (c - b)) (c - a) refl (omega arith)
