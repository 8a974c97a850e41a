-- ===== src/Gateway/Security/Passed.antt =====
-- Which requests pass the handlers over HTTP of svc/app/gateway/api.go, and from which address.
use venn.Prelude.{
  ◌≡◌, ◌≢◌, ◌↔◌, ◌⊎◌, inl, inr, refl, String, Bool, true, false, not, Option, some, List, [], ◌∷◌,
  str_eq, str_eq_iff, ◌&&◌, if◌then◌else◌, arith, Option-cases, Bool-cases,
}
use venn.Gateway.Security.{
  Security, HttpRequest, Headers, Outcome, forbidden, no_content, passed, is_too_large, check_size,
  Matched, invalid, unmatched, matched, match_origins, cors, check_origin, client_addr, serve,
  cors_headers,
}

-- One of the patterns matches, and those before it neither match nor fail.
pub data Admitted (match : String → Option Bool) : List String → Type 0 where
  here : {v : String} {origins : List String} → match v ≡ some true → Admitted match (v ∷ origins)
  there :
      {v : String} {origins : List String}
      → match v ≡ some false
      → Admitted match origins
      → Admitted match (v ∷ origins)

match_origins-Admitted :
    (match : String → Option Bool) (origins : List String)
    → match_origins match origins ≡ matched
    → Admitted match origins
unfolding match_origins
match_origins-Admitted match [] h = absurd (ground arith)
match_origins-Admitted match (v ∷ origins) h = elim (Option-cases (match v)) [
  | inl e ↦ absurd (ground arith)
  | inr (true, e) ↦ here e
  | inr (false, e) ↦ there e (match_origins-Admitted match origins (ground arith))
]

Admitted-match_origins :
    (match : String → Option Bool) (origins : List String)
    → Admitted match origins
    → match_origins match origins ≡ matched
unfolding match_origins
Admitted-match_origins match [] a = elim a [ ]
Admitted-match_origins match (v ∷ origins) (here e) = rw (match_origins, e) refl
Admitted-match_origins match (v ∷ origins) (there e a) =
    rw (match_origins, e) (Admitted-match_origins match origins a)

abbrev pub is_passed : Outcome → Bool
is_passed (passed addr headers) = true
is_passed _ = false

-- CORS answers the request.
abbrev pub Preflight : Security → HttpRequest → Type 0
Preflight s r = (s.cors_enabled ≡ true) × (r.header "Origin" ≢ "") × (r.method ≡ "OPTIONS")

check_size-passed :
    (addr : String) (headers : Headers) (r : HttpRequest)
    → is_passed (check_size addr headers r) ≡ not (is_too_large r.content_length)
unfolding check_size
check_size-passed addr headers r = elim (Bool-cases (is_too_large r.content_length)) [
  | inl e ↦ rw e refl
  | inr e ↦ rw e refl
]

either_passed :
    (cross options large : Bool) (x y z : Outcome)
    → is_passed x ≡ false
    → is_passed y ≡ not large
    → is_passed z ≡ not large
    → is_passed (if cross then (if options then x else y) else z)
      ≡ (not (cross && options) && not large)
either_passed true true large x y z p q r = p
either_passed true false large x y z p q r = q
either_passed false options large x y z p q r = r

cors-passed :
    (s : Security) (o addr : String) (r : HttpRequest)
    → is_passed (cors s o addr r) ≡ (
        not ((s.cors_enabled && not (str_eq o "")) && str_eq r.method "OPTIONS")
        && not (is_too_large r.content_length))
unfolding cors
cors-passed s o addr r =
    either_passed (s.cors_enabled && not (str_eq o "")) (str_eq r.method "OPTIONS")
      (is_too_large r.content_length) (no_content _) (check_size addr (cors_headers s o) r)
      (check_size addr [] r) refl (check_size-passed addr (cors_headers s o) r)
      (check_size-passed addr [] r)

bool_ne : false ≡ true → ⊥
bool_ne h = ground arith

refused_iff :
    (c large : Bool) {C : Type 0}
    → (c ≡ true → C)
    → (C → c ≡ true)
    → ((not c && not large) ≡ true) ↔ ((C → ⊥) × (large ≡ false))
refused_iff true large f g = (λ h. absurd (ground arith), λ h. absurd (h.0 (f refl)))
refused_iff false true f g = (λ h. absurd (ground arith), λ h. absurd (ground arith))
refused_iff false false f g = (λ h. (λ c. absurd (bool_ne (g c)), refl), λ h. refl)

answered :
    (s : Security) (r : HttpRequest)
    → ((s.cors_enabled && not (str_eq (r.header "Origin") "")) && str_eq r.method "OPTIONS") ≡ true
    → Preflight s r
answered s r h = ground (arith, str_eq_iff (r.header "Origin") "", str_eq_iff r.method "OPTIONS")

answered_test :
    (s : Security) (r : HttpRequest)
    → Preflight s r
    → ((s.cors_enabled && not (str_eq (r.header "Origin") "")) && str_eq r.method "OPTIONS") ≡ true
answered_test s r (e, n, o) =
    ground (arith, str_eq_iff (r.header "Origin") "", str_eq_iff r.method "OPTIONS")

cors-passed_iff :
    (s : Security) (addr : String) (r : HttpRequest)
    → (is_passed (cors s (r.header "Origin") addr r) ≡ true)
      ↔ ((Preflight s r → ⊥) × (is_too_large r.content_length ≡ false))
cors-passed_iff s addr r =
    rw (cors-passed s (r.header "Origin") addr r)
      (refused_iff _ (is_too_large r.content_length) (answered s r) (answered_test s r))

matched_iff :
    (m : Matched) (c : Outcome) {Q : Type 0}
    → (is_passed c ≡ true) ↔ Q
    → (is_passed (elim m [
      | invalid ↦ forbidden "invalid origin"
      | unmatched ↦ forbidden "origin not allowed"
      | matched ↦ c
    ])
        ≡ true)
      ↔ ((m ≡ matched) × Q)
matched_iff invalid c q = (λ h. absurd (bool_ne h), λ h. absurd (ground arith))
matched_iff unmatched c q = (λ h. absurd (bool_ne h), λ h. absurd (ground arith))
matched_iff matched c q = (λ h. (refl, q.0 h), λ h. q.1 h.1)

check_origin-passed_iff :
    (match : String → Option Bool) (s : Security) (addr : String) (r : HttpRequest)
    → (is_passed (check_origin match s addr r) ≡ true) ↔ (
        (match_origins match s.allowed_origins ≡ matched)
        × ((Preflight s r → ⊥) × (is_too_large r.content_length ≡ false)))
unfolding check_origin
check_origin-passed_iff match s addr r =
    matched_iff (match_origins match s.allowed_origins) (cors s (r.header "Origin") addr r)
      (cors-passed_iff s addr r)

origins_iff :
    (match : String → Option Bool) (os : List String) (x y : Outcome) (large : Bool) {N : Type 0}
    → is_passed x ≡ not large
    → (is_passed y ≡ true) ↔ ((match_origins match os ≡ matched) × (N × (large ≡ false)))
    → (is_passed (elim os [ [] ↦ x | v ∷ vs ↦ y ]) ≡ true)
      ↔ (((os ≡ []) ⊎ (Admitted match os × N)) × (large ≡ false))
origins_iff match [] x y large e q = (λ h. (inl refl, ground arith), λ h. ground arith)
origins_iff match (v ∷ vs) x y large e q = (
  λ h. let (m, (n, l)) = q.0 h in (inr (match_origins-Admitted match (v ∷ vs) m, n), l),
  λ h. elim h.0 [
    | inl e' ↦ absurd (ground arith)
    | inr (a, n) ↦ q.1 (Admitted-match_origins match (v ∷ vs) a, (n, h.1))
  ],
)

module _ {A : Type 0} (split_host_port : String → Option String) (parse_addr : String → Option A)
    (trusted : A → Bool) (is_ip : String → Bool) (match : String → String → Option Bool) where
  -- With a security configuration a request goes on to the mounted paths exactly if its length is at most
  -- 5 MiB and either no origins are listed, or one of them matches its origin, those before it neither
  -- match nor fail, and it is no preflight that CORS answers.
  pub serve-passed_iff :
      (s : Security) (r : HttpRequest)
      → (is_passed (serve split_host_port parse_addr trusted is_ip match (some s) r) ≡ true) ↔ (
          ((s.allowed_origins ≡ [])
            ⊎ (Admitted (match (r.header "Origin")) s.allowed_origins × (Preflight s r → ⊥)))
          × (is_too_large r.content_length ≡ false))
  unfolding serve
  serve-passed_iff s r =
      let addr = client_addr split_host_port parse_addr trusted is_ip match s r in
      origins_iff (match (r.header "Origin")) s.allowed_origins (check_size addr [] r)
        (check_origin (match (r.header "Origin")) s addr r) (is_too_large r.content_length)
        (check_size-passed addr [] r) (check_origin-passed_iff (match (r.header "Origin")) s addr r)
