-- ===== src/Util/Text.antt =====
-- The searches in texts of lib/util/error.go. A text is the list of the runes that
-- `utf8.DecodeRuneInString` yields, with `rune_error` for what does not decode.
use Prim.Native.Char.{code}
use venn.Prelude.{
  ℕ, String, ◌+◌, ◌-◌, Bool, true, false, ◌&&◌, ◌||◌, not, List, [], ◌∷◌, ltb, leb, ◌==◌,
  if◌then◌else◌,
}

abbrev pub codes : String → List ℕ
codes String.[] = []
codes (String.◌∷◌ c s) = code c ∷ codes s

abbrev pub rune_error : ℕ
rune_error = 0xFFFD

-- The length in bytes of a rune's encoding, and of a text.
abbrev pub rune_size : ℕ → ℕ
rune_size c = if ltb c 0x80 then 1 else if ltb c 0x800 then 2 else if ltb c 0x10000 then 3 else 4

unfoldable pub byte_length : List ℕ → ℕ
byte_length [] = 0
byte_length (c ∷ s) = rune_size c + byte_length s

-- `unicode.ToUpper` as far as it yields an upper-case ASCII letter; the other runes are kept.
unfoldable pub to_upper : ℕ → ℕ
to_upper c =
    if leb b'a' c && leb c b'z'
    then c - 32
    else if c == 0x131
    then b'I'
    else if c == 0x17F
    then b'S'
    else c

-- The loop of `startsWithIgnoreCase` over the needle. An exhausted haystack decodes to RuneError.
unfoldable pub matches_here : List ℕ → List ℕ → Bool
matches_here haystack [] = true
matches_here [] (expected ∷ needle) = false
matches_here (actual ∷ haystack) (expected ∷ needle) =
    if actual == rune_error
    then false
    else if not (to_upper actual == to_upper expected)
    then false
    else matches_here haystack needle

unfoldable pub starts_with_ignore_case : List ℕ → List ℕ → Bool
unfolding matches_here
starts_with_ignore_case haystack needle =
    if ltb (byte_length haystack) (byte_length needle) then false else matches_here haystack needle

-- The loop of `containsIgnoreCase`: it ends when the rest is shorter than the needle, and for an
-- empty needle at the first round.
unfoldable pub contains_ignore_case : List ℕ → List ℕ → Bool
unfolding starts_with_ignore_case
contains_ignore_case [] needle =
    if ltb 0 (byte_length needle) then false else starts_with_ignore_case [] needle
contains_ignore_case (r ∷ haystack) needle =
    if ltb (byte_length (r ∷ haystack)) (byte_length needle)
    then false
    else if starts_with_ignore_case (r ∷ haystack) needle
    then true
    else if r == rune_error
    then false
    else contains_ignore_case haystack needle

-- `strings.Contains`, on runes.
unfoldable pub has_prefix : List ℕ → List ℕ → Bool
has_prefix s [] = true
has_prefix [] (c ∷ p) = false
has_prefix (d ∷ s) (c ∷ p) = d == c && has_prefix s p

unfoldable pub contains : List ℕ → List ℕ → Bool
unfolding has_prefix
contains [] p = has_prefix [] p
contains (c ∷ s) p = has_prefix (c ∷ s) p || contains s p
