-- ===== src/Rpc/Hex.antt =====
-- What the program relies on in go-ethereum's common and hexutil packages, which it does not
-- contain: quantities and hashes as JSON texts.
use venn.Prelude.{ℕ, ◌^◌, ◌<◌, ◌≡◌, String, Option, some, List, length}
use venn.Rpc.Documents.{Json, str}

pub record Hexutil : Type 1 where
  pub Hash : Type 0
  pub Address : Type 0
  -- `common.Hash{}`
  pub zero_hash : Hash
  -- `hexutil.EncodeUint64`: the text 0x and then the digits
  pub encode_uint64 : ℕ → String
  -- `Hash.Hex`, as a JSON text
  pub encode_hash : Hash → String
  pub encode_address : Address → String
  -- JSON decoding into a `hexutil.Uint64`, a `common.Hash` and a `common.Address`
  pub decode_uint64 : Json → Option ℕ
  pub decode_hash : Json → Option Hash
  pub decode_address : Json → Option Address
  -- `hexutil.Decode`, and the arrays that hold 32 and 20 bytes
  pub decode : String → Option (List ℕ)
  pub bytes_to_hash : List ℕ → Hash
  pub bytes_to_address : List ℕ → Address
  -- `a.SetString(input, 0)` and `a.Uint64()` of math/big, which leave open what a text that is no
  -- number gives
  pub big_uint64 : String → ℕ
  pub encode_prefix :
      (n : ℕ) → (digits : String) × (encode_uint64 n ≡ (String.◌∷◌ "0" (String.◌∷◌ "x" digits)))
  pub decode-encode : (n : ℕ) → n < 2 ^ 64 → decode_uint64 (str (encode_uint64 n)) ≡ some n
  pub big-encode : (n : ℕ) → n < 2 ^ 64 → big_uint64 (encode_uint64 n) ≡ n
  pub decode-encode_hash :
      (h : Hash)
      → (b : List ℕ) × (decode (encode_hash h) ≡ some b) × (length b ≡ 32) × (bytes_to_hash b ≡ h)
  -- `common.HexToHash`
  pub hex_to_hash : String → Hash
  pub hex_to_hash-encode : (h : Hash) → hex_to_hash (encode_hash h) ≡ h
  pub decode_hash-encode : (h : Hash) → decode_hash (str (encode_hash h)) ≡ some h
  pub decode_address-encode : (a : Address) → decode_address (str (encode_address a)) ≡ some a
