-- ===== src/Util/Errors/Classes.antt =====
-- What the searches and the classes of lib/util/error.go decide.
use venn.Prelude.{
  ℕ, ◌≤◌, ◌<◌, ◌≡◌, refl, ◌≢◌, ◌↔◌, true, false, ◌⊎◌, some, List, [], ◌∷◌, arith, inl, inr,
}
use venn.Prelude.Int.{negsuc}
use venn.Rpc.{Error, Codec}
use venn.Util.Errors.{is_user_error, is_timeout_error, is_node_error}
use venn.Util.Text.{
  rune_error, rune_size, byte_length, to_upper, matches_here, starts_with_ignore_case,
  contains_ignore_case,
}

-- The needle stands at the head of the text, up to case, with no undecodable rune.
abbrev pub Matches : List ℕ → List ℕ → Type 0
Matches s [] = Unit
Matches [] (c ∷ p) = ⊥
Matches (d ∷ s) (c ∷ p) = (d ≢ rune_error) × (to_upper d ≡ to_upper c) × Matches s p

-- The needle stands somewhere in the text, behind runes that all decode.
pub data Occurs (p : List ℕ) : List ℕ → Type 0 where
  here : {s : List ℕ} → Matches s p → Occurs p s
  later : {c : ℕ} {s : List ℕ} → c ≢ rune_error → Occurs p s → Occurs p (c ∷ s)

abbrev pub IsAscii : List ℕ → Type 0
IsAscii [] = Unit
IsAscii (c ∷ p) = (c < 0x80) × IsAscii p

matches_here_sound : (s p : List ℕ) → matches_here s p ≡ true → Matches s p
unfolding matches_here
matches_here_sound s [] h = tt
matches_here_sound [] (c ∷ p) h = ground arith
matches_here_sound (d ∷ s) (c ∷ p) h = ground (arith, matches_here_sound s p)

matches_here_complete : (s p : List ℕ) → Matches s p → matches_here s p ≡ true
unfolding matches_here
matches_here_complete s [] h = refl
matches_here_complete [] (c ∷ p) h = absurd h
matches_here_complete (d ∷ s) (c ∷ p) h = ground (arith, matches_here_complete s p h.2)

rune_size_pos : (c : ℕ) → 1 ≤ rune_size c
rune_size_pos c = ground arith

Matches-byte_length : (s p : List ℕ) → IsAscii p → Matches s p → byte_length p ≤ byte_length s
unfolding byte_length
Matches-byte_length s [] a m = omega arith
Matches-byte_length [] (c ∷ p) a m = absurd m
Matches-byte_length (d ∷ s) (c ∷ p) a m =
    ground (arith, Matches-byte_length s p a.1 m.2, rune_size_pos d)

starts_complete : (s p : List ℕ) → IsAscii p → Matches s p → starts_with_ignore_case s p ≡ true
unfolding starts_with_ignore_case
starts_complete s p a m = ground (arith, Matches-byte_length s p a m, matches_here_complete s p m)

starts_sound : (s p : List ℕ) → starts_with_ignore_case s p ≡ true → Matches s p
unfolding starts_with_ignore_case
starts_sound s p h = ground (arith, matches_here_sound s p)

Occurs-byte_length : {p s : List ℕ} → IsAscii p → Occurs p s → byte_length p ≤ byte_length s
unfolding byte_length
Occurs-byte_length {p} {s} a (here m) = Matches-byte_length s p a m
Occurs-byte_length a (later n o) = omega (arith, Occurs-byte_length a o)

contains_step :
    (c : ℕ) (s p : List ℕ)
    → contains_ignore_case (c ∷ s) p ≡ true
    → (matches_here (c ∷ s) p ≡ true) ⊎ ((c ≢ rune_error) × (contains_ignore_case s p ≡ true))
unfolding contains_ignore_case
contains_step c s p h = ground arith

contains_empty : (p : List ℕ) → contains_ignore_case [] p ≡ true → matches_here [] p ≡ true
unfolding contains_ignore_case
contains_empty p h = ground arith

contains_sound : (s p : List ℕ) → contains_ignore_case s p ≡ true → Occurs p s
contains_sound [] p h = here (matches_here_sound [] p (contains_empty p h))
contains_sound (c ∷ s) p h = elim (contains_step c s p h) [
  | inl m ↦ here (matches_here_sound (c ∷ s) p m)
  | inr (n, m) ↦ later n (contains_sound s p m)
]

contains_here :
    (s p : List ℕ)
    → byte_length p ≤ byte_length s
    → matches_here s p ≡ true
    → contains_ignore_case s p ≡ true
unfolding contains_ignore_case byte_length
contains_here [] p b m = ground arith
contains_here (c ∷ s) p b m = ground arith

contains_later :
    (c : ℕ) (s p : List ℕ)
    → c ≢ rune_error
    → byte_length p ≤ byte_length s
    → contains_ignore_case s p ≡ true
    → contains_ignore_case (c ∷ s) p ≡ true
unfolding contains_ignore_case byte_length
contains_later c s p n b m = ground (arith, rune_size_pos c)

contains_complete : {p s : List ℕ} → IsAscii p → Occurs p s → contains_ignore_case s p ≡ true
contains_complete {p} {s} a (here m) =
    contains_here s p (Matches-byte_length s p a m) (matches_here_complete s p m)
contains_complete {p} a (later {c} {s} n o) =
    contains_later c s p n (Occurs-byte_length a o) (contains_complete a o)

-- For an ASCII needle `containsIgnoreCase` answers true exactly when the needle stands in the
-- text, up to case, behind runes that all decode: the byte-length guards lose no occurrence.
pub contains_ignore_case_iff :
    (s p : List ℕ) → IsAscii p → (contains_ignore_case s p ≡ true) ↔ Occurs p s
contains_ignore_case_iff s p a = (contains_sound s p, contains_complete a)

-- An error with the "limit exceeded" code (-32005) that is not flagged as a user error and is not
-- ErrNotificationsUnsupported is a timeout error, and neither a user error nor a node error.
pub limit_code-classes :
    (e : Error) (c : Codec)
    → e.codec ≡ some c
    → c.code ≡ negsuc 32004
    → e.user ≡ false
    → e.unsupported ≡ false
    → (is_user_error (some e) ≡ false)
      × (is_timeout_error (some e) ≡ true)
      × (is_node_error (some e) ≡ false)
unfolding is_user_error is_timeout_error is_node_error
limit_code-classes e c h k u n = ground arith
