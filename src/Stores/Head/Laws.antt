-- ===== src/Stores/Head/Laws.antt =====
-- What the head store keeps (lib/stores/headstore/atomic.go).
use Prim.Native.Nat.{max}
use venn.Prelude.{
  str_eq, ℕ, ◌<◌, ◌≡◌, ◌↔◌, String, none, some, List, arith, if◌then◌else◌, Option-cases, inl, inr,
  str_eq_iff,
}
use venn.Prelude.Maps.{lookup, insert, lookup-insert}
use venn.Rpc.{Chain, Result, ok}
use venn.Stores.Head.{Atomic, or_zero, current, put}

-- `Put` panics exactly for a head above zero while no map of heads was made, as after `NewAtomic`; it panics for
-- nothing else.
pub put-panics_iff :
    (chain : Chain) (head : ℕ) (a : Atomic)
    → (put chain head a ≡ none) ↔ ((a.heads ≡ none) × (0 < head))
unfolding put current
put-panics_iff chain head a = ground arith

lookup-put :
    (k j : String) (v : ℕ) (m : List (String × ℕ))
    → or_zero (lookup j (insert k v m)) ≡ (if str_eq k j then v else or_zero (lookup j m))
lookup-put k j v m = ground (arith, lookup-insert k j v m)

-- `Put` returns the head before it. After it the chain has the greater one of the two heads, and every other
-- chain the head that it had.
pub put-current :
    (chain : Chain) (head : ℕ) (a b : Atomic) (r : Result ℕ) (name : String)
    → put chain head a ≡ some (r, b)
    → (r ≡ ok (current chain.name a))
      × (current name b
          ≡ (if str_eq chain.name name then max (current name a) head else current name a))
unfolding put current
put-current chain head a b r name h = elim (Option-cases a.heads) [
  | inl e ↦ ground (arith, str_eq_iff chain.name name)
  | inr (m, e) ↦ ground (arith, str_eq_iff chain.name name, lookup-put chain.name name head m)
]
