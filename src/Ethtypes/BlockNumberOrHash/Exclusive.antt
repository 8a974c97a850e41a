-- ===== src/Ethtypes/BlockNumberOrHash/Exclusive.antt =====
-- A BlockNumberOrHash of lib/ethtypes/rpc.go is one of the two.
use mathlib.Core.Path.{subst}
use venn.Prelude.{
  ℕ, ◌-◌, ◌^◌, ◌==◌, ◌≡◌, refl, String, Bool, true, false, not, Option, none, some, ltb, str_eq,
  if◌then◌else◌,
}
use mathlib.Core.Path.{subst}
use venn.Prelude.Int.{ℤ}
use venn.Util.Text.{codes, byte_length}
use venn.Rpc.{Json, null, bool, num, str, arr, obj, Hexutil, Result, ok, err}
use venn.Ethtypes.BlockNumber.{parse_uint}
use venn.Ethtypes.BlockNumberOrHash.{
  BlockNumberOrHash, number, hash, choose_one, bounded, hash_read, number_read, of_text, of_scalar,
  decode_erased, unmarshal_block,
}

module _ (hex : Hexutil) where
  abbrev Bnh : Type 0
  Bnh = BlockNumberOrHash hex.Hash

  abbrev IsOne : Result Bnh → Type 0
  IsOne (err e) = Unit
  IsOne (ok b) = (number b).1 ≡ not (hash hex.zero_hash b).1

  either_IsOne : (c : Bool) (x y : Result Bnh) → IsOne x → IsOne y → IsOne (if c then x else y)
  either_IsOne true x y p q = p
  either_IsOne false x y p q = q

  choose_one-IsOne :
      (n : Option ℤ) (h : Option hex.Hash) (c : Bool)
      → IsOne (choose_one n h (record { block_number = n; block_hash = h; require_canonical = c }))
  unfolding number hash
  choose_one-IsOne (some n) (some h) c = tt
  choose_one-IsOne none none c = tt
  choose_one-IsOne (some n) none c = refl
  choose_one-IsOne none (some h) c = refl

  bounded-IsOne : (n : ℕ) → IsOne (bounded n)
  unfolding number hash
  bounded-IsOne n = either_IsOne (ltb (2 ^ 63 - 1) n) _ _ tt refl

  hash_read-IsOne : (h : Option hex.Hash) → IsOne (hash_read h)
  unfolding number hash
  hash_read-IsOne none = tt
  hash_read-IsOne (some h) = refl

  number_read-IsOne : (n : Option ℕ) → IsOne (number_read n)
  number_read-IsOne none = tt
  number_read-IsOne (some n) = bounded-IsOne n

  of_text-IsOne : (s : String) → IsOne (of_text hex s)
  unfolding of_text number hash
  of_text-IsOne s = either_IsOne (str_eq s "earliest") _ _ refl (
      either_IsOne (str_eq s "latest") _ _ refl (
        either_IsOne (str_eq s "pending") _ _ refl (
          either_IsOne (str_eq s "safe") _ _ refl (
            either_IsOne (str_eq s "finalized") _ _ refl (
              either_IsOne (byte_length (codes s) == 66) _ _
                (hash_read-IsOne (hex.decode_hash (str s))) (bounded-IsOne (hex.big_uint64 s)))))))

  of_scalar-IsOne : (j : Json) → IsOne (of_scalar hex j)
  of_scalar-IsOne null = tt
  of_scalar-IsOne (bool b) = tt
  of_scalar-IsOne (num t) = number_read-IsOne (parse_uint (codes t))
  of_scalar-IsOne (str s) = of_text-IsOne s
  of_scalar-IsOne (arr vs) = tt
  of_scalar-IsOne (obj fs) = tt

  either_read :
      (d : Option Bnh) (j : Json)
      → IsOne
          (elim d [ some b ↦ choose_one b.block_number b.block_hash b | none ↦ of_scalar hex j ])
  either_read (some b) j = choose_one-IsOne b.block_number b.block_hash b.require_canonical
  either_read none j = of_scalar-IsOne j

  -- What is read without an error has a number exactly if it has no hash.
  pub unmarshal_block-one :
      (j : Json) (b : BlockNumberOrHash hex.Hash)
      → unmarshal_block hex j ≡ ok b
      → (number b).1 ≡ not (hash hex.zero_hash b).1
  unfolding unmarshal_block
  unmarshal_block-one j b h = subst IsOne h (either_read (decode_erased hex j) j)
