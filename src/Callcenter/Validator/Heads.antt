-- ===== src/Callcenter/Validator/Heads.antt =====
-- The head that a validator (lib/callcenter/validator.go) has seen, over many blocks.
use mathlib.Core.List.{Permᴰ}
use mathlib.Core.Logic.{∥∥₁_elim}
use mathlib.Core.List.{Perm}
use venn.Prelude.{ℕ, ◌<◌, ◌≡◌, refl, ◌∙◌, ap, ◌↔◌, ◌⊎◌, none, List, [], ◌∷◌, arith}
use venn.Prelude.Int.{ℤ, ◌-ℤ◌, ◌≤ℤ◌}
use venn.Prelude.Duration.{min}
use venn.Callcenter.Validator.{Validator, update_head}

-- A latest block as a remote reports it, and the time at which it is read.
pub record Sighting : Type 0 where
  pub number : ℕ
  pub timestamp : ℤ
  pub now : ℤ

unfoldable pub see : Sighting → Validator → Validator
see x v = (update_head x.number x.timestamp x.now v).1

unfoldable pub see_all : List Sighting → Validator → Validator
see_all [] v = v
see_all (x ∷ xs) v = see_all xs (see x v)

see_swap : (x y : Sighting) (v : Validator) → see x (see y v) ≡ see y (see x v)
unfolding see update_head
see_swap x y v = ground arith

see_permᴰ : {xs ys : List Sighting} → Permᴰ xs ys → (v : Validator) → see_all xs v ≡ see_all ys v
unfolding see_all
see_permᴰ Permᴰ.nil v = refl
see_permᴰ (Permᴰ.cons {a} {l₁} e p) v = rw (← e) (see_permᴰ p (see a v))
see_permᴰ (Permᴰ.swap {a} {b} {l} e f) v = rw (← e, ← f) (ap (see_all l) (see_swap b a v))
see_permᴰ (Permᴰ.trans p q) v = see_permᴰ p v ∙ see_permᴰ q v

Validator-set : IsSet Validator
Validator-set = hlevel

-- The head and its time do not depend on the order in which blocks are seen, so the mutex may let
-- concurrent requests through in any order.
pub see_all-perm :
    (xs ys : List Sighting) (v : Validator) → Perm xs ys → see_all xs v ≡ see_all ys v
see_all-perm xs ys v p = ∥∥₁_elim p (Validator-set _ _) (λ q. see_permᴰ q v)

-- `updateHead` accepts a block exactly if it is higher than the head, or at the head and the
-- earlier of its timestamp and the one noted for the head is not older than the limit.
pub update_head-accepts_iff :
    (head : ℕ) (updated now : ℤ) (v : Validator)
    → ((update_head head updated now v).0 ≡ none)
      ↔ ((v.head < head) ⊎ ((head ≡ v.head) × (now -ℤ min v.updated updated ≤ℤ v.old)))
unfolding update_head min
update_head-accepts_iff head updated now v = ground arith
