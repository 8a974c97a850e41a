-- ===== src/Gateway/Words.antt =====
-- The functions on texts of Go's strings that svc/app/gateway/api.go uses. Only the spaces of ASCII are trimmed.
use Prim.Native.Char.{Char, code}
use Prim.Native.String.{◌++◌ as ◌⧺◌}
use venn.Prelude.{String, Bool, List, [], ◌∷◌, ◌||◌, ◌&&◌, ◌==◌, leb, if◌then◌else◌}

abbrev is_space : Char → Bool
is_space c = (code c == 32) || (leb 9 (code c) && leb (code c) 13)

unfoldable pub trim_left : String → String
trim_left String.[] = ""
trim_left (String.◌∷◌ c s) = let rest = trim_left s in if is_space c then rest else String.◌∷◌ c s

abbrev cons_trimmed : Char → String → String
cons_trimmed c String.[] = if is_space c then "" else String.◌∷◌ c ""
cons_trimmed c (String.◌∷◌ d s) = String.◌∷◌ c (String.◌∷◌ d s)

unfoldable pub trim_right : String → String
trim_right String.[] = ""
trim_right (String.◌∷◌ c s) = cons_trimmed c (trim_right s)

-- `strings.TrimSpace`
unfoldable pub trim_space : String → String
unfolding trim_left trim_right
trim_space s = trim_right (trim_left s)

abbrev push : Char → List String → List String
push c [] = String.◌∷◌ c "" ∷ []
push c (w ∷ words) = String.◌∷◌ c w ∷ words

-- `strings.Split(s, ",")`
unfoldable pub split : String → List String
split String.[] = "" ∷ []
split (String.◌∷◌ c s) = let rest = split s in if code c == b',' then "" ∷ rest else push c rest

-- `strings.Join(words, ", ")`
unfoldable pub join : List String → String
join [] = ""
join (w ∷ []) = w
join (w ∷ (v ∷ words)) = w ⧺ ", " ⧺ join (v ∷ words)
