-- ===== src/Tests/Hex.antt =====
-- A concrete Hexutil for the tests: quantities as hexadecimal digits, and two hashes and two addresses.
use Prim.Native.Char.{Char, code}
use native.Mathlib.Nat.{pow-suc}
use venn.Prelude.{
  ℕ, zero, suc, ◌+◌, ◌-◌, ◌*◌, ◌/◌, ◌%◌, ◌^◌, ◌<◌, ◌≡◌, refl, ap, ◌∙◌, String, Bool, true, false,
  ◌&&◌, Option, none, some, List, [], ◌∷◌, arith, length, ltb, leb, ◌==◌, if◌then◌else◌, str_eq,
  replicate, ◌++◌, Bool-cases, ltb→lt, get_or, inl, inr,
}
use venn.Rpc.{Json, str, Hexutil}

abbrev digits : List Char
digits =
    "0" ∷ "1" ∷ "2" ∷ "3" ∷ "4" ∷ "5" ∷ "6" ∷ "7" ∷ "8" ∷ "9" ∷ "a" ∷ "b" ∷ "c" ∷ "d" ∷ "e" ∷ "f"
    ∷ []

abbrev digit : ℕ → Char
digit n = get_or digits n "f"

abbrev value : Char → ℕ
value c = if leb (code c) b'9' then code c - b'0' else code c - b'a' + 10

abbrev print : ℕ → ℕ → String → String
print zero n s = s
print (suc fuel) n s =
    let rest = print fuel (n / 16) (String.◌∷◌ (digit (n % 16)) s) in
    if ltb n 16 then String.◌∷◌ (digit n) s else rest

abbrev read : String → ℕ → ℕ
read String.[] v = v
read (String.◌∷◌ c s) v = read s (16 * v + value c)

abbrev prefixed : String → String
prefixed t = String.◌∷◌ "0" (String.◌∷◌ "x" t)

abbrev strip : String → Option String
strip (String.◌∷◌ c (String.◌∷◌ d t)) =
    if (code c == b'0') && (code d == b'x') then some t else none
strip _ = none

value-digit : (n : ℕ) → n < 16 → value (digit n) ≡ n
value-digit zero h = refl
value-digit (suc zero) h = refl
value-digit (suc (suc zero)) h = refl
value-digit (suc (suc (suc zero))) h = refl
value-digit (suc (suc (suc (suc zero)))) h = refl
value-digit (suc (suc (suc (suc (suc zero))))) h = refl
value-digit (suc (suc (suc (suc (suc (suc zero)))))) h = refl
value-digit (suc (suc (suc (suc (suc (suc (suc zero))))))) h = refl
value-digit (suc (suc (suc (suc (suc (suc (suc (suc zero)))))))) h = refl
value-digit (suc (suc (suc (suc (suc (suc (suc (suc (suc zero))))))))) h = refl
value-digit (suc (suc (suc (suc (suc (suc (suc (suc (suc (suc zero)))))))))) h = refl
value-digit (suc (suc (suc (suc (suc (suc (suc (suc (suc (suc (suc zero))))))))))) h = refl
value-digit (suc (suc (suc (suc (suc (suc (suc (suc (suc (suc (suc (suc zero)))))))))))) h = refl
value-digit (suc (suc (suc (suc (suc (suc (suc (suc (suc (suc (suc (suc (suc zero))))))))))))) h =
    refl
value-digit (suc (suc (suc (suc (suc (suc (suc (suc (suc (suc (suc (suc (suc (suc zero))))))))))))))
      h =
    refl
value-digit
      (suc (suc (suc (suc (suc (suc (suc (suc (suc (suc (suc (suc (suc (suc (suc zero)))))))))))))))
      h =
    refl
value-digit
      (suc
        (suc (suc (suc (suc (suc (suc (suc (suc (suc (suc (suc (suc (suc (suc (suc n))))))))))))))))
      h =
    absurd (omega arith)

pub read-print : (fuel n : ℕ) (s : String) → n < 16 ^ fuel → read (print fuel n s) 0 ≡ read s n
read-print zero n s h = ap (read s) (omega arith)
read-print (suc fuel) n s h = elim (Bool-cases (ltb n 16)) [
  | inl e ↦ rw e (ap (λ (m : ℕ). read s m) (omega (arith, value-digit n (ltb→lt n 16 e))))
  | inr e ↦ rw e (
      read-print fuel (n / 16) (String.◌∷◌ (digit (n % 16)) s) (omega (arith, pow-suc))
      ∙ ap (λ (m : ℕ). read s m) (omega (arith, value-digit (n % 16) (omega arith))))
]

abbrev encode : ℕ → String
encode n = prefixed (print 16 n "")

abbrev read_text : String → Option ℕ
read_text s = elim (strip s) [ none ↦ none | some t ↦ some (read t 0) ]

abbrev decode_quantity : Json → Option ℕ
decode_quantity (str s) = read_text s
decode_quantity _ = none

abbrev big : String → ℕ
big s = elim (strip s) [ none ↦ 0 | some t ↦ read t 0 ]

abbrev hash_text : Bool → String
hash_text false = "0x0000000000000000000000000000000000000000000000000000000000000000"
hash_text true = "0x0000000000000000000000000000000000000000000000000000000000000001"

abbrev hash_bytes : Bool → List ℕ
hash_bytes false = replicate 32 0
hash_bytes true = replicate 31 0 ++ (1 ∷ [])

abbrev decode_bytes : String → Option (List ℕ)
decode_bytes s =
    if str_eq s (hash_text false)
    then some (hash_bytes false)
    else if str_eq s (hash_text true)
    then some (hash_bytes true)
    else none

abbrev hash_of : List ℕ → Bool
hash_of b = get_or b 31 0 == 1

abbrev address_text : Bool → String
address_text false = "0x0000000000000000000000000000000000000000"
address_text true = "0x0000000000000000000000000000000000000001"

abbrev decode_text : (Bool → String) → Json → Option Bool
decode_text f (str s) =
    if str_eq s (f false) then some false else if str_eq s (f true) then some true else none
decode_text f _ = none

pub decode_hash_lem :
    (h : Bool)
    → (b : List ℕ) × (decode_bytes (hash_text h) ≡ some b) × (length b ≡ 32) × (hash_of b ≡ h)
decode_hash_lem false = (hash_bytes false, refl, refl, refl)
decode_hash_lem true = (hash_bytes true, refl, refl, refl)

pub decode_text_hash : (h : Bool) → decode_text hash_text (str (hash_text h)) ≡ some h
decode_text_hash false = refl
decode_text_hash true = refl

pub text_hash : (h : Bool) → str_eq (hash_text h) (hash_text true) ≡ h
text_hash false = refl
text_hash true = refl

pub decode_text_address : (h : Bool) → decode_text address_text (str (address_text h)) ≡ some h
decode_text_address false = refl
decode_text_address true = refl

abbrev pub hexutil : Hexutil
hexutil = record {
  Hash = Bool;
  Address = Bool;
  zero_hash = false;
  encode_uint64 = encode;
  encode_hash = hash_text;
  encode_address = address_text;
  decode_uint64 = decode_quantity;
  decode_hash = decode_text hash_text;
  decode_address = decode_text address_text;
  decode = decode_bytes;
  bytes_to_hash = hash_of;
  bytes_to_address = λ b. get_or b 19 0 == 1;
  big_uint64 = big;
  encode_prefix = λ n. (print 16 n "", refl);
  decode-encode = λ n h. ap some (read-print 16 n "" (omega arith));
  big-encode = λ n h. read-print 16 n "" (omega arith);
  decode-encode_hash = decode_hash_lem;
  hex_to_hash = λ t. str_eq t (hash_text true);
  hex_to_hash-encode = text_hash;
  decode_hash-encode = decode_text_hash;
  decode_address-encode = decode_text_address;
}

sample : encode 1234 ≡ "0x4d2"
sample = refl
