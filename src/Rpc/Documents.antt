-- ===== src/Rpc/Documents.antt =====
-- JSON documents as values. A `json.RawMessage` is the value that its text denotes.
use venn.Prelude.{String, Bool, List, [], ◌∷◌, Option, none, some}

-- A number keeps its text, and an object its fields in order.
mutual
  pub data Json : Type 0 where
    null : Json
    bool : Bool → Json
    num : String → Json
    str : String → Json
    arr : Items → Json
    obj : Fields → Json

  pub data Items : Type 0 where
    nil : Items
    cons : Json → Items → Items

  pub data Fields : Type 0 where
    end : Fields
    field : String → Json → Fields → Fields

unfoldable pub to_list : Items → List Json
to_list nil = []
to_list (cons x xs) = x ∷ to_list xs

unfoldable pub of_list : List Json → Items
of_list [] = nil
of_list (x ∷ xs) = cons x (of_list xs)

-- `r.Params`: nil, bytes that are not JSON, or a document.
pub data Params : Type 0 where
  absent malformed : Params
  doc : Json → Params

-- `json.Unmarshal(r.Params, &params)` into a `[]json.RawMessage`.
unfoldable pub raw_list : Params → Option (List Json)
unfolding to_list
raw_list (doc (arr xs)) = some (to_list xs)
raw_list (doc null) = some []
raw_list (doc _) = none
raw_list _ = none

-- `json.Unmarshal` into a `bool` that is false before.
unfoldable pub decode_bool : Json → Option Bool
decode_bool (bool b) = some b
decode_bool null = some Bool.false
decode_bool _ = none

unfoldable pub is_null : Json → Bool
is_null null = Bool.true
is_null _ = Bool.false
