-- ===== src/Ethtypes/BlockNumberOrHash.antt =====
-- `BlockNumberOrHash` of lib/ethtypes/rpc.go.
pub mod Exclusive
use venn.Prelude.{
  ℕ, ◌-◌, ◌^◌, ◌==◌, String, Bool, true, false, Option, none, some, ltb, str_eq, if◌then◌else◌,
}
use venn.Prelude.Int.{ℤ, pos}
use venn.Util.Text.{codes, byte_length}
use venn.Rpc.{
  Json, null, bool, num, str, arr, obj, Fields, end, field, decode_bool, decode_error, plain,
  Hexutil, Result, ok, err,
}
use venn.Ethtypes.BlockNumber.{earliest, latest, pending, safe, finalized, parse_uint, unmarshal}
use venn.Ethtypes.Filter.{key_is, pointer}

pub record BlockNumberOrHash (H : Type 0) : Type 0 where
  pub block_number : Option ℤ
  pub block_hash : Option H
  pub require_canonical : Bool

-- `Number` and `Hash`
unfoldable pub number : {H : Type 0} → BlockNumberOrHash H → ℤ × Bool
number b = elim b.block_number [ some n ↦ (n, true) | none ↦ (pos 0, false) ]

unfoldable pub hash : {H : Type 0} → H → BlockNumberOrHash H → H × Bool
hash zero_hash b = elim b.block_hash [ some h ↦ (h, true) | none ↦ (zero_hash, false) ]

module _ {H : Type 0} where
  abbrev pub nothing : BlockNumberOrHash H
  nothing = record { block_number = none; block_hash = none; require_canonical = false }

  abbrev pub of_number : ℤ → BlockNumberOrHash H
  of_number n = record { block_number = some n; block_hash = none; require_canonical = false }

  abbrev pub of_hash : H → BlockNumberOrHash H
  of_hash h = record { block_number = none; block_hash = some h; require_canonical = false }

  abbrev pub set_number : Option (Option ℤ) → BlockNumberOrHash H → Option (BlockNumberOrHash H)
  set_number none b = none
  set_number (some n) b = some (record b { block_number = n })

  abbrev pub set_hash : Option (Option H) → BlockNumberOrHash H → Option (BlockNumberOrHash H)
  set_hash none b = none
  set_hash (some h) b = some (record b { block_hash = h })

  -- JSON null leaves a bool as it is.
  abbrev pub set_canonical : Json → BlockNumberOrHash H → Option (BlockNumberOrHash H)
  set_canonical (bool c) b = some (record b { require_canonical = c })
  set_canonical null b = some b
  set_canonical _ b = none

  -- The two tests on a dictionary.
  abbrev pub choose_one : Option ℤ → Option H → BlockNumberOrHash H → Result (BlockNumberOrHash H)
  choose_one (some n) (some h) b =
      err (plain "cannot specify both BlockHash and BlockNumber, choose one or the other")
  choose_one none none b =
      err (plain "at least one of BlockNumber or BlockHash is needed if a dictionary is provided")
  choose_one _ _ b = ok b

  abbrev pub bounded : ℕ → Result (BlockNumberOrHash H)
  bounded n =
      if ltb (2 ^ 63 - 1) n then err (plain "blocknumber too high") else ok (of_number (pos n))

  abbrev pub hash_read : Option H → Result (BlockNumberOrHash H)
  hash_read none = err decode_error
  hash_read (some h) = ok (of_hash h)

  abbrev pub number_read : Option ℕ → Result (BlockNumberOrHash H)
  number_read none = err decode_error
  number_read (some n) = bounded n

module _ (hex : Hexutil) where
  unfoldable pub set_field :
      String → Json → BlockNumberOrHash hex.Hash → Option (BlockNumberOrHash hex.Hash)
  set_field k v b =
      if key_is "blockNumber" k
      then set_number (pointer (unmarshal hex) v) b
      else if key_is "blockHash" k
      then set_hash (pointer hex.decode_hash v) b
      else if key_is "requireCanonical" k
      then set_canonical v b
      else some b

  unfoldable pub set_fields :
      Fields → BlockNumberOrHash hex.Hash → Option (BlockNumberOrHash hex.Hash)
  unfolding set_field
  set_fields end b = some b
  set_fields (field k v fs) b = elim (set_field k v b) [ none ↦ none | some b' ↦ set_fields fs b' ]

  -- `json.Unmarshal(data, &e)`
  unfoldable pub decode_erased : Json → Option (BlockNumberOrHash hex.Hash)
  unfolding set_fields
  decode_erased null = some nothing
  decode_erased (obj fs) = set_fields fs nothing
  decode_erased _ = none

  -- The switch on the text.
  unfoldable pub of_text : String → Result (BlockNumberOrHash hex.Hash)
  of_text input =
      if str_eq input "earliest"
      then ok (of_number earliest)
      else if str_eq input "latest"
      then ok (of_number latest)
      else if str_eq input "pending"
      then ok (of_number pending)
      else if str_eq input "safe"
      then ok (of_number safe)
      else if str_eq input "finalized"
      then ok (of_number finalized)
      else if byte_length (codes input) == 66
      then hash_read (hex.decode_hash (str input))
      else bounded (hex.big_uint64 input)

  -- What is read where the dictionary is none: a number, or a text.
  abbrev pub of_scalar : Json → Result (BlockNumberOrHash hex.Hash)
  of_scalar (num t) = number_read (parse_uint (codes t))
  of_scalar (str s) = of_text s
  of_scalar _ = err decode_error

  -- `UnmarshalJSON` into a fresh value
  unfoldable pub unmarshal_block : Json → Result (BlockNumberOrHash hex.Hash)
  unfolding decode_erased of_text
  unmarshal_block j = elim (decode_erased j) [
    | some b ↦ choose_one b.block_number b.block_hash b
    | none ↦ of_scalar j
  ]
