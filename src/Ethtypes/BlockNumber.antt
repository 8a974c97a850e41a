-- ===== src/Ethtypes/BlockNumber.antt =====
-- `BlockNumber` of lib/ethtypes/rpc.go and its JSON.
pub mod RoundTrip
use venn.Prelude.{
  ℕ, zero, suc, ◌+◌, ◌-◌, ◌*◌, ◌^◌, String, Bool, true, false, ◌&&◌, Option, none, some, List, [],
  ◌∷◌, ltb, leb, if◌then◌else◌, str_eq,
}
use venn.Prelude.Int.{ℤ, pos, negsuc, eqb_ℤ}
use venn.Rpc.{Json, null, bool, num, str, arr, obj, Hexutil}
use venn.Util.Text.{codes}

abbrev pub latest_executed : ℤ
latest_executed = negsuc 4

abbrev pub finalized : ℤ
finalized = negsuc 3

abbrev pub safe : ℤ
safe = negsuc 2

abbrev pub pending : ℤ
pending = negsuc 1

abbrev pub latest : ℤ
latest = negsuc 0

abbrev pub earliest : ℤ
earliest = pos 0

-- `strconv.ParseUint(input, 10, 64)`: digits only, at least one, and in range.
unfoldable pub parse_digits : List ℕ → ℕ → Option ℕ
parse_digits [] n = some n
parse_digits (c ∷ s) n =
    let rest = parse_digits s (n * 10 + (c - b'0')) in
    if leb b'0' c && leb c b'9' then rest else none

abbrev in_range : Option ℕ → Option ℕ
in_range none = none
in_range (some n) = if ltb n (2 ^ 64) then some n else none

unfoldable pub parse_uint : List ℕ → Option ℕ
unfolding parse_digits
parse_uint [] = none
parse_uint (c ∷ s) = in_range (parse_digits (c ∷ s) 0)

-- The trimmed text of a value, without the quotes; a text is written without escapes. Of an array or object all that matters below is
-- that it is no word and no number.
unfoldable pub input_of : Json → String
input_of (str s) = s
input_of (num t) = t
input_of null = "null"
input_of (bool true) = "true"
input_of (bool false) = "false"
input_of (arr _) = "["
input_of (obj _) = "{"

-- `uint64(bn)`
abbrev pub to_uint64 : ℤ → ℕ
to_uint64 (pos n) = n
to_uint64 (negsuc n) = 2 ^ 64 - n - 1

-- `BlockNumber(head)` of a `uint64`
abbrev pub to_int64 : ℕ → ℤ
to_int64 n = if ltb n (2 ^ 63) then pos n else negsuc (2 ^ 64 - n - 1)

module _ (hex : Hexutil) where
  -- The number that is read where the input is none of the words.
  abbrev pub read_number : String → ℕ
  read_number input = elim (parse_uint (codes input)) [ some n ↦ n | none ↦ hex.big_uint64 input ]

  -- `UnmarshalJSON`; `none` is the error "block number larger than int64".
  unfoldable pub unmarshal_text : String → Option ℤ
  unfolding parse_uint
  unmarshal_text input =
      let n = read_number input in
      if str_eq input "earliest"
      then some earliest
      else if str_eq input "latest"
      then some latest
      else if str_eq input "pending"
      then some pending
      else if str_eq input "safe"
      then some safe
      else if str_eq input "finalized"
      then some finalized
      else if str_eq input "latestExecuted"
      then some latest_executed
      else if str_eq input "null"
      then some latest
      else if ltb (2 ^ 63 - 1) n
      then none
      else some (pos n)

  unfoldable pub unmarshal : Json → Option ℤ
  unfolding unmarshal_text input_of
  unmarshal j = unmarshal_text (input_of j)

  -- `MarshalJSON`, with `uint64(bn)` of a negative number written out.
  unfoldable pub marshal_text : ℤ → String
  marshal_text bn =
      if eqb_ℤ bn earliest
      then "earliest"
      else if eqb_ℤ bn latest
      then "latest"
      else if eqb_ℤ bn pending
      then "pending"
      else if eqb_ℤ bn safe
      then "safe"
      else if eqb_ℤ bn finalized
      then "finalized"
      else if eqb_ℤ bn latest_executed
      then "latestExecuted"
      else hex.encode_uint64 (to_uint64 bn)

  unfoldable pub marshal_block : ℤ → Json
  unfolding marshal_text
  marshal_block bn = str (marshal_text bn)
