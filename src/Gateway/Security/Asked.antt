-- ===== src/Gateway/Security/Asked.antt =====
-- The headers that a preflight in svc/app/gateway/api.go allows.
use venn.Prelude.{
  ℕ, ◌≡◌, ◌≢◌, inl, inr, refl, ◌∙◌, String, true, List, [], ◌∷◌, ◌++◌, map, str_eq, str_eq_iff,
  arith, Bool-cases, sym,
}
use mathlib.Core.List.{append_assoc, append-nil, Mem, mem-cons_of_mem, mem-cons_self}
use venn.Gateway.Security.{Security, HttpRequest}
use venn.Util.Text.{codes}
use venn.Ethtypes.Filter.{key_is, equal_fold}
use venn.Gateway.Words.{trim_space, split}
use venn.Gateway.Security.{is_among, merge_headers, allowed_headers, or_default, default_headers}

equal_fold_self : (s : List ℕ) → equal_fold s s ≡ true
unfolding equal_fold
equal_fold_self [] = refl
equal_fold_self (c ∷ s) = let rec = equal_fold_self s in ground arith

is_among_self : (h : String) (l : List String) → is_among h (l ++ (h ∷ [])) ≡ true
unfolding is_among
is_among_self h [] = rw (equal_fold_self (codes h)) refl
is_among_self h (a ∷ l) = let rec = is_among_self h l in ground arith

is_among-append :
    (h : String) (l r : List String) → is_among h l ≡ true → is_among h (l ++ r) ≡ true
unfolding is_among
is_among-append h [] r e = absurd (ground arith)
is_among-append h (a ∷ l) r e = elim (Bool-cases (key_is h a)) [
  | inl k ↦ rw k refl
  | inr k ↦ let rec = is_among-append h l r in ground arith
]

-- Every header is among them, up to the case of letters.
abbrev pub AllAmong : List String → List String → Type 0
AllAmong [] l = Unit
AllAmong (h ∷ hs) l = (is_among (trim_space h) l ≡ true) × AllAmong hs l

-- The list is the first one, and then only headers of the second.
abbrev pub AllIn : List String → List String → Type 0
AllIn [] l = Unit
AllIn (h ∷ hs) l = Mem h l × AllIn hs l

abbrev pub ExtendsBy : List String → List String → List String → Type 0
ExtendsBy l asked allowed =
    (extra : List String) × (allowed ≡ l ++ extra) × AllIn extra (map trim_space asked)

merge_headers-keeps :
    (asked l : List String) (h : String)
    → is_among h l ≡ true
    → is_among h (merge_headers asked l) ≡ true
unfolding merge_headers
merge_headers-keeps [] l h e = e
merge_headers-keeps (x ∷ asked) l h e = elim (Bool-cases (is_among (trim_space x) l)) [
  | inl k ↦ rw k (merge_headers-keeps asked l h e)
  | inr k ↦ rw k (merge_headers-keeps asked (l ++ (trim_space x ∷ [])) h (is_among-append h l _ e))
]

merge_headers-AllAmong : (asked l : List String) → AllAmong asked (merge_headers asked l)
unfolding merge_headers
merge_headers-AllAmong [] l = tt
merge_headers-AllAmong (x ∷ asked) l = elim (Bool-cases (is_among (trim_space x) l)) [
  | inl k ↦ rw k (merge_headers-keeps asked l (trim_space x) k, merge_headers-AllAmong asked l)
  | inr k ↦ rw k (
    merge_headers-keeps asked (l ++ (trim_space x ∷ [])) (trim_space x)
        (is_among_self (trim_space x) l),
    merge_headers-AllAmong asked (l ++ (trim_space x ∷ [])),
  )
]

AllIn-cons : (x : String) (hs l : List String) → AllIn hs l → AllIn hs (x ∷ l)
AllIn-cons x [] l a = tt
AllIn-cons x (h ∷ hs) l (m, a) = (mem-cons_of_mem x m, AllIn-cons x hs l a)

merge_headers-ExtendsBy : (asked l : List String) → ExtendsBy l asked (merge_headers asked l)
unfolding merge_headers
merge_headers-ExtendsBy [] l = ([], sym (append-nil l), tt)
merge_headers-ExtendsBy (x ∷ asked) l = elim (Bool-cases (is_among (trim_space x) l)) [
  | inl k ↦
      let (extra, e, a) = merge_headers-ExtendsBy asked l in
      rw k (extra, e, AllIn-cons (trim_space x) extra (map trim_space asked) a)
  | inr k ↦
      let (extra, e, a) = merge_headers-ExtendsBy asked (l ++ (trim_space x ∷ [])) in
      rw k (
        trim_space x ∷ extra,
        e ∙ append_assoc l (trim_space x ∷ []) extra,
        (mem-cons_self, AllIn-cons (trim_space x) extra (map trim_space asked) a),
      )
]

-- When a preflight asks for headers, the list that it gets is the list of the configuration, or the
-- default one, and after it only headers that were asked for, without the spaces around them; and every
-- header that was asked for is in it, up to the case of its letters.
pub allowed_headers-ExtendsBy :
    (s : Security) (r : HttpRequest)
    → let asked = r.header "Access-Control-Request-Headers" in
      asked ≢ ""
      → ExtendsBy
          (or_default s.cors_allowed_headers default_headers)
          (split asked)
          (allowed_headers s r)
        × AllAmong (split asked) (allowed_headers s r)
unfolding allowed_headers
allowed_headers-ExtendsBy s r n =
    elim (Bool-cases (str_eq (r.header "Access-Control-Request-Headers") "")) [
      | inl e ↦ absurd (n ((str_eq_iff (r.header "Access-Control-Request-Headers") "").0 e))
      | inr e ↦ rw e (merge_headers-ExtendsBy _ _, merge_headers-AllAmong _ _)
    ]
