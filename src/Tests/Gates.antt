-- ===== src/Tests/Gates.antt =====
-- The gateway at concrete inputs.
use venn.Prelude.{
  ℕ, suc, ◌≡◌, ◌≢◌, ◌↔◌, ◌⊎◌, refl, ap, String, Bool, true, false, not, Option, none, some, [], ◌∷◌,
  length, str_eq, if◌then◌else◌, ◌≤◌, zero, List,
}
use mathlib.Core.List.{Mem}
use venn.Prelude.Int.{pos}
use venn.Rpc.{doc, arr, nil, null, raw, sent, Request, Handler, Result, ok}
use venn.Gateway.Words.{split, trim_space}
use venn.Ethtypes.Filter.{equal_fold}
use venn.Gateway.Telemetry.{
  Event, publishes, reads, run, step, publish, read, new_traffic, new_telemetry,
}
use venn.Gateway.Telemetry.Held.{run-sent}
use venn.Gateway.Security.{
  Security, HttpRequest, passed, serve, client_addr, is_trusted, is_too_large, or_default,
  default_headers, allowed_headers, cors_headers, merge_headers, is_among,
}
use venn.Gateway.Security.Passed.{is_passed, Admitted, Preflight, serve-passed_iff}
use venn.Gateway.Security.Address.{client_addr-cases}
use venn.Gateway.Security.Asked.{AllAmong, ExtendsBy, allowed_headers-ExtendsBy}
use venn.Gateway.Guards.{Context, gateway}
use venn.Gateway.Guards.Replies.{Endpoint, proxies, gateway-replies}
use venn.Tests.Data.{mainnet, false_ne}

abbrev policy : Security
policy = record {
  trusted_ip_headers = "X-Real-Ip" ∷ [];
  allowed_origins = "https://a.example" ∷ "https://b.example" ∷ [];
  cors_enabled = true;
  cors_allowed_methods = [];
  cors_allowed_headers = [];
  cors_expose_headers = [];
  cors_allow_credentials = false;
  cors_max_age = pos 0;
}

abbrev headers : String → String
headers h =
    if str_eq h "Origin"
    then "https://b.example"
    else if str_eq h "X-Real-Ip"
    then "192.0.2.7"
    else if str_eq h "Access-Control-Request-Headers"
    then "accept, X-Trace"
    else ""

abbrev post : HttpRequest
post = record {
  method = "POST";
  remote_addr = "10.0.0.1";
  header = headers;
  content_length = pos 200;
}

abbrev preflight : HttpRequest
preflight = record post { method = "OPTIONS" }

abbrev no_split : String → Option String
no_split addr = none

abbrev parse : String → Option String
parse addr = some addr

abbrev inside : String → Bool
inside addr = str_eq addr "10.0.0.1"

abbrev is_ip : String → Bool
is_ip addr = not (str_eq addr "")

abbrev match : String → String → Option Bool
match o v = some (str_eq o v)

served :
    serve no_split parse inside is_ip match (some policy) post
    ≡ passed "192.0.2.7" (("Access-Control-Allow-Origin", "https://b.example") ∷ [])
unfolding serve cors_headers
served = refl

serve-passed_iff_example :
    (is_passed (serve no_split parse inside is_ip match (some policy) post) ≡ true) ↔ (
      ((policy.allowed_origins ≡ [])
        ⊎ (Admitted (match (post.header "Origin")) policy.allowed_origins
            × (Preflight policy post → ⊥)))
      × (is_too_large post.content_length ≡ false))
serve-passed_iff_example = serve-passed_iff no_split parse inside is_ip match policy post

client_addr-cases_example :
    (client_addr no_split parse inside is_ip match policy post ≡ post.remote_addr)
    ⊎ ((is_trusted no_split parse inside is_ip match post ≡ true)
        × ((is_ip (client_addr no_split parse inside is_ip match policy post) ≡ true)
            × ((h : String) × Mem h policy.trusted_ip_headers
                × (post.header h ≡ client_addr no_split parse inside is_ip match policy post))))
client_addr-cases_example = client_addr-cases no_split parse inside is_ip match policy post

allowed_run :
    allowed_headers policy preflight ≡ "Content-Type" ∷ "Accept" ∷ "Authorization" ∷ "X-Trace" ∷ []
unfolding allowed_headers merge_headers is_among equal_fold split trim_space
allowed_run = refl

asked_ne : preflight.header "Access-Control-Request-Headers" ≢ ""
asked_ne h = false_ne (ap (λ s. str_eq s "") h)

allowed_headers-ExtendsBy_run :
    ExtendsBy
      (or_default policy.cors_allowed_headers default_headers)
      (split "accept, X-Trace")
      (allowed_headers policy preflight)
    × AllAmong (split "accept, X-Trace") (allowed_headers policy preflight)
allowed_headers-ExtendsBy_run = allowed_headers-ExtendsBy policy preflight asked_ne

abbrev answering : Handler ℕ
answering r s = (sent (raw null) ∷ [], suc s)

abbrev call : Request
call = record { method = "eth_chainId"; params = doc (arr nil); chain = some mainnet }

abbrev peer : Context
peer = record {
  path = some "eth";
  spec = some "public";
  identifier = none;
  remote_addr = "192.0.2.7";
}

abbrev ten : String → ℕ → ℕ → Result Bool × ℕ
ten k cost s = (ok true, s)

-- A proxy that answers over HTTP, and has nothing for a subscription.
abbrev over_http : Endpoint ℕ
over_http = ((λ r s. ([], s)), λ r s. ((null, none), suc s))

gateway-replies_example :
    length
      (gateway
        (λ p. 2)
        ("eth_chainId" ∷ [])
        no_split
        (ten ∷ [])
        (λ i r s. (none, s))
        (proxies (("eth", over_http) ∷ []))
        peer
        call
        0).0
    ≡ 1
gateway-replies_example =
    gateway-replies call refl (λ p. 2) ("eth_chainId" ∷ []) no_split (ten ∷ []) (λ i r s. (none, s))
      (("eth", over_http) ∷ []) peer 0 (λ i r s. refl)

abbrev hundreds : ℕ → List (Event ℕ)
hundreds zero = []
hundreds (suc n) = publishes none (ok n) ∷ (reads ∷ hundreds n)

run-sent_example : (run (hundreds 140) new_traffic).sent ≤ 129
run-sent_example = run-sent (hundreds 140)

-- All of 140 publishes want to go on, and eleven of them wait.
stuck_run : length (run (hundreds 140) new_traffic).blocked ≡ 11
unfolding run step publish read new_traffic new_telemetry
stuck_run = refl
