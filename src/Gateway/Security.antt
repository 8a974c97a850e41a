-- ===== src/Gateway/Security.antt =====
-- svc/app/gateway/api.go: the address of a request, its origin, the headers of CORS and its size.
pub mod Passed
pub mod Address
pub mod Asked
use venn.Prelude.{
  ℕ, zero, String, Bool, true, false, not, Option, none, some, List, [], ◌∷◌, ◌++◌, ltb, str_eq,
  ◌&&◌, if◌then◌else◌,
}
use venn.Prelude.Int.{ℤ, pos, negsuc}
use venn.Prelude.Decimal.{itoa}
use venn.Ethtypes.Filter.{key_is}
use venn.Gateway.Words.{trim_space, split, join}

pub record Security : Type 0 where
  pub trusted_ip_headers : List String
  pub allowed_origins : List String
  pub cors_enabled : Bool
  pub cors_allowed_methods : List String
  pub cors_allowed_headers : List String
  pub cors_expose_headers : List String
  pub cors_allow_credentials : Bool
  pub cors_max_age : ℤ

-- `header` is `r.Header.Get`, which gives "" for a header that is not there.
pub record HttpRequest : Type 0 where
  pub method : String
  pub remote_addr : String
  pub header : String → String
  pub content_length : ℤ

abbrev pub Headers : Type 0
Headers = List (String × String)

-- What becomes of a request: it is refused, answered, or goes to the next handler, from that address; with
-- the headers that are set by then.
pub data Outcome : Type 0 where
  forbidden : String → Outcome
  too_large no_content : Headers → Outcome
  passed : String → Headers → Outcome

-- `int(r.ContentLength) > maxRequestBodySize`
abbrev pub is_too_large : ℤ → Bool
is_too_large (pos n) = ltb 5242880 n
is_too_large (negsuc n) = false

unfoldable pub check_size : String → Headers → HttpRequest → Outcome
check_size addr headers r =
    if is_too_large r.content_length then too_large headers else passed addr headers

-- The outcome of the loop over the allowed origins.
pub data Matched : Type 0 where
  invalid unmatched matched : Matched

-- `match` is `origin.Match(o, v)` for the origin of the request, and none its error.
unfoldable pub match_origins : (String → Option Bool) → List String → Matched
match_origins match [] = unmatched
match_origins match (v ∷ origins) =
    let rest = match_origins match origins in
    elim (match v) [ none ↦ invalid | some found ↦ if found then matched else rest ]

unfoldable pub is_among : String → List String → Bool
is_among h [] = false
is_among h (a ∷ allowed) = let rest = is_among h allowed in if key_is h a then true else rest

-- The loop over the headers that the client asks for.
unfoldable pub merge_headers : List String → List String → List String
unfolding is_among
merge_headers [] allowed = allowed
merge_headers (h ∷ requested) allowed =
    let kept = merge_headers requested allowed in
    let added = merge_headers requested (allowed ++ (trim_space h ∷ [])) in
    if is_among (trim_space h) allowed then kept else added

abbrev pub or_default : List String → List String → List String
or_default [] default = default
or_default (x ∷ xs) default = x ∷ xs

abbrev pub default_methods : List String
default_methods = "POST" ∷ "GET" ∷ "OPTIONS" ∷ []

abbrev pub default_headers : List String
default_headers = "Content-Type" ∷ "Accept" ∷ "Authorization" ∷ []

unfoldable pub allowed_headers : Security → HttpRequest → List String
unfolding merge_headers
allowed_headers s r =
    let asked = r.header "Access-Control-Request-Headers" in
    let allowed = or_default s.cors_allowed_headers default_headers in
    let merged = merge_headers (split asked) allowed in if str_eq asked "" then allowed else merged

abbrev pub max_age : ℤ → String
max_age (pos zero) = "86400"
max_age n = itoa n

abbrev pub expose : List String → Headers
expose [] = []
expose (x ∷ xs) = ("Access-Control-Expose-Headers", join (x ∷ xs)) ∷ []

-- The headers of CORS for every request, and those for a preflight.
unfoldable pub cors_headers : Security → String → Headers
cors_headers s o =
    ("Access-Control-Allow-Origin", o)
    ∷ ((if s.cors_allow_credentials then ("Access-Control-Allow-Credentials", "true") ∷ [] else [])
        ++ expose s.cors_expose_headers)

unfoldable pub preflight_headers : Security → HttpRequest → Headers
unfolding allowed_headers
preflight_headers s r =
    ("Access-Control-Allow-Methods", join (or_default s.cors_allowed_methods default_methods))
    ∷ ("Access-Control-Allow-Headers", join (allowed_headers s r))
    ∷ ("Access-Control-Max-Age", max_age s.cors_max_age)
    ∷ []

unfoldable pub cors : Security → String → String → HttpRequest → Outcome
unfolding check_size cors_headers preflight_headers
cors s o addr r =
    let headers = cors_headers s o in
    let preflight = no_content (headers ++ preflight_headers s r) in
    let with_cors = check_size addr headers r in
    let without = check_size addr [] r in
    if s.cors_enabled && not (str_eq o "")
    then (if str_eq r.method "OPTIONS" then preflight else with_cors)
    else without

unfoldable pub check_origin : (String → Option Bool) → Security → String → HttpRequest → Outcome
unfolding match_origins cors check_size
check_origin match s addr r = elim (match_origins match s.allowed_origins) [
  | invalid ↦ forbidden "invalid origin"
  | unmatched ↦ forbidden "origin not allowed"
  | matched ↦ cors s (r.header "Origin") addr r
]

-- `net.SplitHostPort`, `netip.ParseAddr`, `ipset.Contains`, `net.ParseIP` with a result, and `origin.Match`
module _ {A : Type 0} (split_host_port : String → Option String) (parse_addr : String → Option A)
    (trusted : A → Bool) (is_ip : String → Bool) (match : String → String → Option Bool) where
  -- `HostFromRemoteAddr`
  abbrev pub host_from_remote_addr : String → String
  host_from_remote_addr addr = elim (split_host_port addr) [ none ↦ addr | some host ↦ host ]

  unfoldable pub forwarded : List String → HttpRequest → String
  forwarded [] r = r.remote_addr
  forwarded (h ∷ headers) r =
      let rest = forwarded headers r in
      let val = r.header h in if not (str_eq val "") && is_ip val then val else rest

  unfoldable pub is_trusted : HttpRequest → Bool
  is_trusted r = elim (parse_addr (host_from_remote_addr r.remote_addr)) [
    | none ↦ false
    | some a ↦ trusted a
  ]

  -- The address that the later handlers see.
  unfoldable pub client_addr : Security → HttpRequest → String
  unfolding forwarded is_trusted
  client_addr s r =
      let given = forwarded s.trusted_ip_headers r in if is_trusted r then given else r.remote_addr

  -- Both handlers, up to the mounted paths.
  unfoldable pub serve : Option Security → HttpRequest → Outcome
  unfolding client_addr check_origin check_size
  serve none r = check_size r.remote_addr [] r
  serve (some s) r =
      let addr = client_addr s r in
      let checked = check_origin (match (r.header "Origin")) s addr r in
      let unchecked = check_size addr [] r in
      elim s.allowed_origins [ [] ↦ unchecked | o ∷ os ↦ checked ]
