-- ===== src/Node/Served/Plain.antt =====
-- The names that svc/app/node/api.go can mount by themselves: chi reads `{`, `}` and `*` as parts of a pattern, and
-- a name with a slash may be under another.
use venn.Prelude.{
  ℕ, ◌≡◌, refl, String, Bool, true, false, not, ◌&&◌, ◌||◌, ◌==◌, List, [], ◌∷◌, ◌++◌,
}
use venn.Util.Text.{codes}
use venn.Config.{Chain}
use venn.Node.Paths.{Mounted, to_chain}
use venn.Node.Served.Tables.{Table, keys, own, all, reserved}

abbrev are_plain : List ℕ → Bool
are_plain [] = true
are_plain (c ∷ s) = not ((c == b'/') || (c == b'{') || (c == b'}') || (c == b'*')) && are_plain s

abbrev is_empty : List ℕ → Bool
is_empty [] = true
is_empty (c ∷ s) = false

abbrev pub is_plain : String → Bool
is_plain path = not (is_empty (codes path)) && are_plain (codes path)

abbrev pub ArePlain : List String → Type 0
ArePlain [] = Unit
ArePlain (path ∷ paths) = (is_plain path ≡ true) × ArePlain paths

-- The names and the aliases of the chains
abbrev pub NamesPlain : List Chain → Type 0
NamesPlain [] = Unit
NamesPlain (c ∷ cs) = ArePlain (c.name ∷ c.aliases) × NamesPlain cs

pub keys-plain : (s t : Table) → ArePlain (keys s) → ArePlain (keys t) → ArePlain (keys (s ++ t))
keys-plain [] t h k = k
keys-plain ((p, m) ∷ s) t (e, h) k = (e, keys-plain s t h k)

pub plain-left : (s t : Table) → ArePlain (keys (s ++ t)) → ArePlain (keys s)
plain-left [] t h = tt
plain-left ((p, m) ∷ s) t (e, h) = (e, plain-left s t h)

pub plain-right : (s t : Table) → ArePlain (keys (s ++ t)) → ArePlain (keys t)
plain-right [] t h = h
plain-right ((p, m) ∷ s) t (e, h) = plain-right s t h

own-plain : (m : Mounted) (paths : List String) → ArePlain paths → ArePlain (keys (own m paths))
own-plain m [] h = tt
own-plain m (p ∷ paths) (e, h) = (e, own-plain m paths h)

all-plain : (cs : List Chain) → NamesPlain cs → ArePlain (keys (all cs))
all-plain [] h = tt
all-plain (c ∷ cs) (a, h) =
    keys-plain (own (to_chain c) (c.name ∷ c.aliases)) (all cs)
      (own-plain (to_chain c) (c.name ∷ c.aliases) a) (all-plain cs h)

pub routes-plain : (cs : List Chain) → NamesPlain cs → ArePlain (keys (all cs ++ reserved))
routes-plain cs h = keys-plain (all cs) reserved (all-plain cs h) (refl, (refl, tt))
