-- ===== src/Middlewares/InputData/Filled.antt =====
-- What lib/callcenter/inputData.go adds to a call.
use venn.Prelude.{
  String, inl, inr, Option-cases, ◌≡◌, ◌↔◌, ◌||◌, refl, Option, none, some, [], ◌∷◌, arith,
  if◌then◌else◌, str_eq, str_eq_iff,
}
use venn.Prelude.Maps.{lookup}
use venn.Rpc.{Json}
use venn.Middlewares.InputData.{RawMap, put, fill}

lookup-put :
    (k j : String) (v : Json) (m : RawMap)
    → lookup j (put k v m) ≡ (if str_eq k j then some v else lookup j m)
unfolding put lookup
lookup-put k j v [] = refl
lookup-put k j v ((i, w) ∷ m) =
    ground (arith, str_eq_iff k j, str_eq_iff i k, str_eq_iff i j, lookup-put k j v m)

abbrev pub or_else : Option Json → Option Json → Option Json
or_else (some v) o = some v
or_else none o = o

-- A call that is changed has, for `input` and for `data`, the value of the one that it had, and for every other key
-- what it had before.
pub fill-lookup :
    (call new : RawMap) (k : String)
    → fill call ≡ some new
    → lookup k new ≡ (
        if str_eq "input" k || str_eq "data" k
        then or_else (lookup "input" call) (lookup "data" call)
        else lookup k call)
unfolding fill
fill-lookup call new k h = elim (Option-cases (lookup "input" call)) [
  | inl e ↦ elim (Option-cases (lookup "data" call)) [
    | inl f ↦ ground arith
    | inr (d, f) ↦
        ground (arith, str_eq_iff "input" k, str_eq_iff "data" k, lookup-put "input" k d call)
  ]
  | inr (i, e) ↦ elim (Option-cases (lookup "data" call)) [
    | inl f ↦ ground (arith, str_eq_iff "input" k, str_eq_iff "data" k, lookup-put "data" k i call)
    | inr (d, f) ↦ ground arith
  ]
]

-- A call is left as it is exactly if it has both `input` and `data` or neither.
pub fill-none_iff :
    (call : RawMap)
    → (fill call ≡ none) ↔ ((lookup "input" call ≡ none) ↔ (lookup "data" call ≡ none))
unfolding fill
fill-none_iff call = ground arith
