-- ===== src/Prelude/Maps.antt =====
-- Go's maps, as association lists: `m[name]` with its two-value form is `lookup`, and `m[name] = value`
-- is `insert`. The first entry of a name counts.
use text.Mathlib.Text.{◌==◌ as str_eq}
use text.Mathlib.TextEquality.{eq_iff as str_eq_iff}
use venn.Prelude.{String, ◌≡◌, refl, ap, List, [], ◌∷◌, Option, none, some, arith, if◌then◌else◌}

module _ {ℓ} {V : Type ℓ} where
  unfoldable pub lookup : String → List (String × V) → Option V
  lookup name [] = none
  lookup name (e ∷ entries) =
      let later = lookup name entries in if str_eq e.0 name then some e.1 else later

  unfoldable pub insert : String → V → List (String × V) → List (String × V)
  insert name value [] = (name, value) ∷ []
  insert name value (e ∷ entries) =
      let later = insert name value entries in
      if str_eq e.0 name then (name, value) ∷ entries else e ∷ later

  pub lookup-insert :
      (name other : String) (value : V) (entries : List (String × V))
      → lookup other (insert name value entries)
        ≡ (if str_eq name other then some value else lookup other entries)
  unfolding lookup insert
  lookup-insert name other value [] = refl
  lookup-insert name other value (e ∷ entries) = ground (
    arith,
    str_eq_iff name other,
    str_eq_iff e.0 name,
    str_eq_iff e.0 other,
    lookup-insert name other value entries,
  )

-- A test of a text that is known to be `k`: with literals the right side computes.
pub str_eq-at : (m k l : String) → m ≡ k → str_eq m l ≡ str_eq k l
str_eq-at m k l e = ap (λ (x : String). str_eq x l) e
