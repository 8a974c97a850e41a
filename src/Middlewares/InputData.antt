-- ===== src/Middlewares/InputData.antt =====
-- lib/callcenter/inputData.go: `eth_call` gets both `input` and `data`.
pub mod Filled
use Prim.Native.String.{compare}
use Prim.Native.Nat.{Ordering}
use venn.Prelude.{
  ℕ, String, Bool, true, false, ◌||◌, Option, none, some, List, [], ◌∷◌, length, ltb, if◌then◌else◌,
  str_eq,
}
use venn.Prelude.Maps.{lookup}
use venn.Rpc.{
  Json, null, obj, arr, Fields, end, field, of_list, Params, doc, raw_list, invalid_request,
  Request, Reply, Handler, Result, ok, err, forward,
}

-- `map[string]json.RawMessage`, as its entries in the order in which encoding/json writes them.
abbrev pub RawMap : Type 0
RawMap = List (String × Json)

unfoldable pub put : String → Json → RawMap → RawMap
put k v [] = (k, v) ∷ []
put k v ((j, w) ∷ m) =
    let rest = put k v m in
    elim (compare k j) [
      | Ordering.lt ↦ (k, v) ∷ (j, w) ∷ m
      | Ordering.eq ↦ (k, v) ∷ m
      | Ordering.gt ↦ (j, w) ∷ rest
    ]

unfoldable pub put_fields : Fields → RawMap → RawMap
unfolding put
put_fields end m = m
put_fields (field k v fs) m = put_fields fs (put k v m)

unfoldable pub read_map : Json → Option RawMap
unfolding put_fields
read_map null = some []
read_map (obj fs) = some (put_fields fs [])
read_map _ = none

unfoldable pub fields_of : RawMap → Fields
fields_of [] = end
fields_of ((k, v) ∷ m) = field k v (fields_of m)

-- The call with the missing field, if exactly one of the two is there.
unfoldable pub fill : RawMap → Option RawMap
unfolding put
fill call = elim (lookup "input" call) [
  | none ↦ elim (lookup "data" call) [ none ↦ none | some d ↦ some (put "input" d call) ]
  | some i ↦ elim (lookup "data" call) [ none ↦ some (put "data" i call) | some d ↦ none ]
]

abbrev with_call : Request → List Json → Option RawMap → Request
with_call r rest none = r
with_call r rest (some call) = record r {
  params = doc (arr (of_list (obj (fields_of call) ∷ rest)));
}

abbrev rewrite_call : Request → Option RawMap → List Json → Result Request
rewrite_call r none rest = err (invalid_request "expected first parameter to be an object")
rewrite_call r (some call) rest = ok (with_call r rest (fill call))

abbrev expected : Result Request
expected = err (invalid_request "expected 2-3 parameters")

-- The case `eth_call` up to the call of the next handler.
unfoldable pub rewrite : Request → Result Request
unfolding fill fields_of
rewrite r = elim (raw_list r.params) [
  | none ↦ err (invalid_request "params must be an array")
  | some (first ∷ second ∷ []) ↦ rewrite_call r (read_map first) (second ∷ [])
  | some (first ∷ second ∷ third ∷ []) ↦ rewrite_call r (read_map first) (second ∷ third ∷ [])
  | some _ ↦ expected
]

unfoldable pub serve {ℓ} : {S : Type ℓ} → Handler S → Handler S
unfolding rewrite
serve next r s =
    let pass = next r s in if str_eq r.method "eth_call" then forward next (rewrite r) s else pass
