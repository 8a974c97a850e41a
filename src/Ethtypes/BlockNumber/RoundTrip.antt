-- ===== src/Ethtypes/BlockNumber/RoundTrip.antt =====
-- Reading back a block number that lib/ethtypes/rpc.go has written.
use venn.Prelude.{
  ℕ, zero, suc, ◌-◌, ◌^◌, ◌<◌, ◌≤◌, ◌≡◌, refl, sym, ap, ◌∙◌, String, Bool, true, false, some, List,
  [], ◌∷◌, arith, ltb, ◌==◌, str_eq, str_eq_iff, Bool-cases, inl, inr,
}
use venn.Prelude.Int.{ℤ, pos, negsuc, ◌≤ℤ◌}
use venn.Rpc.{Hexutil}
use venn.Util.Text.{codes}
use venn.Ethtypes.BlockNumber.{
  parse_digits, parse_uint, unmarshal_text, unmarshal, marshal_text, marshal_block,
}

abbrev prefixed : String → String
prefixed t = String.◌∷◌ "0" (String.◌∷◌ "x" t)

true_ne : true ≡ false → ⊥
true_ne e = ground arith

ltb-above : (m n : ℕ) → n ≤ m → ltb m n ≡ false
ltb-above m n h = ground arith

abbrev is_prefixed : List ℕ → Bool
is_prefixed [] = false
is_prefixed (c ∷ s) = c == b'0'

prefixed_ne : (t w : String) → is_prefixed (codes w) ≡ false → str_eq (prefixed t) w ≡ false
prefixed_ne t w h = elim (Bool-cases (str_eq (prefixed t) w)) [
  | inl e ↦
      absurd
        (true_ne (ap (λ (s : String). is_prefixed (codes s)) ((str_eq_iff (prefixed t) w).0 e) ∙ h))
  | inr e ↦ e
]

module _ (hex : Hexutil) where
  read_prefixed :
      (t : String)
      → hex.big_uint64 (prefixed t) < 2 ^ 63
      → unmarshal_text hex (prefixed t) ≡ some (pos (hex.big_uint64 (prefixed t)))
  unfolding unmarshal_text parse_uint parse_digits
  read_prefixed t h = rw (
    prefixed_ne t "earliest" refl,
    prefixed_ne t "latest" refl,
    prefixed_ne t "pending" refl,
    prefixed_ne t "safe" refl,
    prefixed_ne t "finalized" refl,
    prefixed_ne t "latestExecuted" refl,
    prefixed_ne t "null" refl,
    ltb-above (2 ^ 63 - 1) (hex.big_uint64 (prefixed t)) (omega arith),
  )

  read_encoded : (n : ℕ) → n < 2 ^ 63 → unmarshal_text hex (hex.encode_uint64 n) ≡ some (pos n)
  read_encoded n h =
      let (t, e) = hex.encode_prefix n in
      let b = ap hex.big_uint64 (sym e) ∙ hex.big-encode n (omega arith) in
      rw e (read_prefixed t (omega (arith, b)) ∙ ap (λ (m : ℕ). some (pos m)) b)

  marshal_positive : (n : ℕ) → marshal_text hex (pos (suc n)) ≡ hex.encode_uint64 (suc n)
  unfolding marshal_text
  marshal_positive n = ground arith

  -- A block number that is one of the named tags, or at most 2^63 - 1, is read back from the JSON that is
  -- written for it.
  pub unmarshal-marshal_block :
      (bn : ℤ)
      → negsuc 4 ≤ℤ bn
      → bn ≤ℤ pos (2 ^ 63 - 1)
      → unmarshal hex (marshal_block hex bn) ≡ some bn
  unfolding unmarshal marshal_block marshal_text
  unmarshal-marshal_block (pos zero) h k = refl
  unmarshal-marshal_block (pos (suc n)) h k =
      ap (unmarshal_text hex) (marshal_positive n) ∙ read_encoded (suc n) (omega arith)
  unmarshal-marshal_block (negsuc zero) h k = refl
  unmarshal-marshal_block (negsuc (suc zero)) h k = refl
  unmarshal-marshal_block (negsuc (suc (suc zero))) h k = refl
  unmarshal-marshal_block (negsuc (suc (suc (suc zero)))) h k = refl
  unmarshal-marshal_block (negsuc (suc (suc (suc (suc zero))))) h k = refl
  unmarshal-marshal_block (negsuc (suc (suc (suc (suc (suc n)))))) h k = absurd (omega arith)
