-- ===== src/Gateway/Guards/Replies.antt =====
-- How often svc/app/gateway/api.go replies to a request.
use mathlib.Core.Path.{subst}
use venn.Prelude.{
  ℕ, suc, ◌≡◌, refl, String, Bool, true, false, Option, none, some, List, [], ◌∷◌, arith, length,
  inl, inr, str_eq, Bool-cases, some-injective,
}
use venn.Prelude.Maps.{lookup}
use venn.Callcenter.HybridProxy.{endpoint_handler, handle_http}
use venn.Rpc.{Json, Params, Request, Handler, Reply, Error, Result, ok, err}
use venn.Gateway.Guards.{
  Identifier, Context, Guarded, check_params, validate_method, whitelist, with_identifier,
  limit_abuse, require_context, publish_after, base_handler, limit_all, identify, gateway,
  after_publish, required, key, on_identifier, on_allowed,
}

-- What EndpointHandler of lib/callcenter/hybridproxy.go makes a proxy of: what runs for a subscription, and
-- what a request over HTTP comes to.
abbrev pub Endpoint : Type 0 → Type 0
Endpoint S = Handler S × (Request → S → (Json × Option Error) × S)

abbrev pub proxies : {S : Type 0} → List (String × Endpoint S) → List (String × Handler S)
proxies [] = []
proxies ((name, (subscription, do_raw)) ∷ endpoints) =
    (name, endpoint_handler subscription do_raw) ∷ proxies endpoints

module _ {S : Type 0} (r : Request) where
  abbrev pub One : Guarded S → Type 0
  One h = (c : Context) (s : S) → length (h c r s).0 ≡ 1

  check_params-One :
      (size : Params → ℕ) (next : Guarded S) → One next → One (check_params size next)
  unfolding check_params
  check_params-One size next one c s = ground (arith, one c s)

  pub validate_method-One : (next : Guarded S) → One next → One (validate_method next)
  unfolding validate_method
  validate_method-One next one c s = ground (arith, one c s)

  whitelist-One :
      (methods : List String) (next : Guarded S) → One next → One (whitelist methods next)
  unfolding whitelist
  whitelist-One [] next one c s = one c s
  whitelist-One (m ∷ methods) next one c s = ground (arith, one c s)

  required-One :
      {A : Type 0} (e : Error) (o : Option A) (f : A → List Reply × S) (s : S)
      → ((a : A) → o ≡ some a → length (f a).0 ≡ 1)
      → length (required e o f s).0 ≡ 1
  required-One e none f s one = refl
  required-One e (some a) f s one = one a refl

  on_identifier-One :
      (i : Result (Option Identifier)) (next : Guarded S) → One next → One (on_identifier i next)
  on_identifier-One (err e) next one c s = refl
  on_identifier-One (ok none) next one c s = one _ s
  on_identifier-One (ok (some i)) next one c s = one _ s

  on_allowed-One :
      (allowed : Result Bool) (pass : List Reply × S) (s : S)
      → length pass.0 ≡ 1
      → length (on_allowed allowed pass s).0 ≡ 1
  on_allowed-One (err e) pass s one = refl
  on_allowed-One (ok true) pass s one = one
  on_allowed-One (ok false) pass s one = refl

  after_publish-One :
      (sends : List Reply) (p : Option Error × S)
      → p.0 ≡ none
      → length sends ≡ 1
      → length (after_publish sends p).0 ≡ 1
  after_publish-One sends (none, s) fine one = one
  after_publish-One sends (some e, s) fine one = absurd (ground arith)

  pub with_identifier-One :
      (f : Context → Result (Option Identifier)) (next : Guarded S)
      → One next
      → One (with_identifier f next)
  unfolding with_identifier
  with_identifier-One f next one c s = on_identifier-One (f c) next one c s

  pub limit_abuse-One :
      (allow : String → ℕ → S → Result Bool × S) (next : Guarded S)
      → One next
      → One (limit_abuse allow next)
  unfolding limit_abuse
  limit_abuse-One allow next one c s = required-One _ c.identifier _ s (λ i e.
      on_allowed-One (allow (key i) (suc i.extra_cost) s).0
        (next c r (allow (key i) (suc i.extra_cost) s).1) _ (one c _))

  limit_all-One :
      (limits : List (String → ℕ → S → Result Bool × S)) (next : Guarded S)
      → One next
      → One (limit_all limits next)
  unfolding limit_all
  limit_all-One [] next one = one
  limit_all-One (allow ∷ limits) next one =
      limit_abuse-One allow (limit_all limits next) (limit_all-One limits next one)

  require_context-One : (next : Guarded S) → One next → One (require_context next)
  unfolding require_context
  require_context-One next one c s = ground (arith, one c s)

  publish_after-One :
      (publish : Identifier → Request → S → Option Error × S) (next : Guarded S)
      → ((i : Identifier) (r : Request) (s : S) → (publish i r s).0 ≡ none)
      → One next
      → One (publish_after publish next)
  unfolding publish_after
  publish_after-One publish next fine one c s = required-One _ c.identifier _ s (λ i e.
      after_publish-One (next c r s).0 (publish i r (next c r s).1) (fine i r (next c r s).1)
        (one c s))

  module _ (over_http : str_eq r.method "eth_subscribe" ≡ false) where
    endpoint-one :
        (endpoints : List (String × Endpoint S)) (target : String) (proxy : Handler S)
        → lookup target (proxies endpoints) ≡ some proxy
        → (s : S) → length (proxy r s).0 ≡ 1
    unfolding lookup endpoint_handler handle_http
    endpoint-one [] target proxy e s = absurd (ground arith)
    endpoint-one ((name, (subscription, do_raw)) ∷ endpoints) target proxy e s =
        elim (Bool-cases (str_eq name target)) [
          | inl k ↦
              let same : endpoint_handler subscription do_raw ≡ proxy =
                some-injective _ _ (rw k at e) in
              subst (λ (h : Handler S). length (h r s).0 ≡ 1) same
                (rw (endpoint_handler, over_http) refl)
          | inr k ↦ endpoint-one endpoints target proxy (rw k at e) s
        ]

    base_handler-One :
        (endpoints : List (String × Endpoint S)) → One (base_handler (proxies endpoints))
    unfolding base_handler
    base_handler-One endpoints c s = required-One _ c.path _ s (λ target e.
        required-One _ (lookup target (proxies endpoints)) _ s
          (λ proxy e'. endpoint-one endpoints target proxy e' s))

    -- The gateway over its proxies replies to every request but eth_subscribe exactly once, whatever its guards
    -- decide and whatever the proxies get over HTTP, if the telemetry can always be published.
    pub gateway-replies :
        (size : Params → ℕ) (methods : List String) (split_host_port : String → Option String)
        (limits : List (String → ℕ → S → Result Bool × S))
        (publish : Identifier → Request → S → Option Error × S)
        (endpoints : List (String × Endpoint S)) (c : Context) (s : S)
        → ((i : Identifier) (q : Request) (s' : S) → (publish i q s').0 ≡ none)
        → length (gateway size methods split_host_port limits publish (proxies endpoints) c r s).0
          ≡ 1
    unfolding gateway
    gateway-replies size methods split_host_port limits publish endpoints c s fine =
        let base = base_handler (proxies endpoints) in
        let published = publish_after publish base in
        let asked = require_context published in
        let limited = limit_all limits asked in
        let identified = with_identifier (identify split_host_port) limited in
        let listed = whitelist methods identified in
        let published-One = publish_after-One publish base fine (base_handler-One endpoints) in
        let limited-One =
          limit_all-One limits asked (require_context-One published published-One) in
        let listed-One =
          whitelist-One methods identified
            (with_identifier-One (identify split_host_port) limited limited-One) in
        check_params-One size (validate_method listed) (validate_method-One listed listed-One) c s
