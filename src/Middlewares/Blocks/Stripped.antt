-- ===== src/Middlewares/Blocks/Stripped.antt =====
-- The rewritten blocks of svc/node/atoms/cacher/cacher.go and svc/node/atoms/subcenter/component.go.
use venn.Prelude.{
  ◌≡◌, ◌≢◌, refl, ap, String, some, List, [], ◌∷◌, map, arith, str_eq, str_eq_iff, false,
  if◌then◌else◌,
}
use venn.Rpc.{Json, arr, obj, Items, cons, Fields, end, field, of_list}
use venn.Ethtypes.Filter.{option_map}
use venn.Middlewares.Blocks.{hashes_in, hashes, hashes_of, strip_fields, remove_details}

abbrev pub append : Fields → Fields → Fields
append end fs = fs
append (field k v es) fs = field k v (append es fs)

-- No field has the key.
abbrev pub Lacks : String → Fields → Type 0
Lacks k end = Unit
Lacks k (field j v fs) = (j ≢ k) × Lacks k fs

-- A block with these transactions.
abbrev pub block : Fields → List Json → Fields → Json
block before txs after = obj (append before (field "transactions" (arr (of_list txs)) after))

pub record Transaction : Type 0 where
  pub before : Fields
  pub hash : Json
  pub after : Fields

abbrev pub document : Transaction → Json
document t = obj (append t.before (field "hash" t.hash t.after))

-- Every transaction has one hash.
abbrev pub HaveOneHash : List Transaction → Type 0
HaveOneHash [] = Unit
HaveOneHash (t ∷ ts) = Lacks "hash" t.before × Lacks "hash" t.after × HaveOneHash ts

str_ne : (j k : String) → j ≢ k → str_eq j k ≡ false
str_ne j k h = ground (arith, str_eq_iff j k)

hashes_in-Lacks : (fs : Fields) (rest : Items) → Lacks "hash" fs → hashes_in fs rest ≡ rest
unfolding hashes_in
hashes_in-Lacks end rest h = refl
hashes_in-Lacks (field j v fs) rest h =
    rw (str_ne j "hash" h.0, if◌then◌else◌) (hashes_in-Lacks fs rest h.1)

hashes_in-document :
    (before after : Fields) (v : Json) (rest : Items)
    → Lacks "hash" before
    → Lacks "hash" after
    → hashes_in (append before (field "hash" v after)) rest ≡ cons v rest
unfolding hashes_in
hashes_in-document end after v rest h k = ap (cons v) (hashes_in-Lacks after rest k)
hashes_in-document (field j w before) after v rest h k =
    rw (str_ne j "hash" h.0, if◌then◌else◌) (hashes_in-document before after v rest h.1 k)

hashes-documents :
    (ts : List Transaction)
    → HaveOneHash ts
    → hashes (of_list (map document ts)) ≡ some (of_list (map Transaction.hash ts))
unfolding hashes of_list
hashes-documents [] h = refl
hashes-documents (t ∷ ts) h = rw (hashes-documents ts h.2) (
    ap some
      (hashes_in-document t.before t.after t.hash (of_list (map Transaction.hash ts)) h.0 h.1))

strip_fields-Lacks : (fs : Fields) → Lacks "transactions" fs → strip_fields fs ≡ some fs
unfolding strip_fields
strip_fields-Lacks end h = refl
strip_fields-Lacks (field j v fs) h =
    rw (str_ne j "transactions" h.0, strip_fields-Lacks fs h.1, if◌then◌else◌) refl

strip_fields-block :
    (before after : Fields) (ts : List Transaction)
    → Lacks "transactions" before
    → Lacks "transactions" after
    → HaveOneHash ts
    → strip_fields (append before (field "transactions" (arr (of_list (map document ts))) after))
      ≡ some (append before (field "transactions" (arr (of_list (map Transaction.hash ts))) after))
unfolding strip_fields hashes_of
strip_fields-block end after ts h k p = rw (hashes-documents ts p, strip_fields-Lacks after k) refl
strip_fields-block (field j v before) after ts h k p =
    rw (str_ne j "transactions" h.0, strip_fields-block before after ts h.1 k p, if◌then◌else◌) refl

-- Of a block with one field `transactions`, whose transactions have one field `hash` each, the
-- cacher keeps every other field in its place and puts the hashes, in order, for the transactions.
pub remove_details-block :
    (before after : Fields) (ts : List Transaction)
    → Lacks "transactions" before
    → Lacks "transactions" after
    → HaveOneHash ts
    → remove_details (block before (map document ts) after)
      ≡ some (block before (map Transaction.hash ts) after)
unfolding remove_details
remove_details-block before after ts h k p =
    ap (option_map obj) (strip_fields-block before after ts h k p)
