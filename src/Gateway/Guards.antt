-- ===== src/Gateway/Guards.antt =====
-- svc/app/gateway/api.go: the middlewares of the gateway's JSON-RPC, with lib/util/validation.go and
-- lib/ratelimit/identifier.go. What a request's context carries is an argument.
pub mod Replies
use Prim.Native.String.{◌++◌ as ◌⧺◌}
use venn.Prelude.{
  ℕ, suc, ◌+◌, String, Bool, true, false, not, Option, none, some, List, [], ◌∷◌, ◌++◌, ltb, str_eq,
  if◌then◌else◌,
}
use venn.Prelude.Int.{pos}
use venn.Prelude.Maps.{lookup}
use venn.Util.Text.{codes, byte_length, contains}
use venn.Rpc.{
  Params, Request, Handler, Reply, Error, plain, rpc_error, invalid_request, failed, Result, ok,
  err,
}

pub record Identifier : Type 0 where
  pub endpoint : String
  pub kind : String
  pub slug : String
  pub extra_cost : ℕ

abbrev pub nil_identifier : Identifier
nil_identifier = record { endpoint = ""; kind = "nil"; slug = "nil"; extra_cost = 0 }

-- `Key`
unfoldable pub key : Identifier → String
key i = i.endpoint ⧺ ":" ⧺ i.kind ⧺ ":" ⧺ i.slug

-- The values of `r.Context()`, and `r.Peer.RemoteAddr`, which is that of the HTTP request if there is one. Of the endpoint's specification the name is used.
pub record Context : Type 0 where
  pub path : Option String
  pub spec : Option String
  pub identifier : Option Identifier
  pub remote_addr : String

abbrev pub Guarded : Type 0 → Type 0
Guarded S = Context → Handler S

abbrev pub no_endpoint_path : Error
no_endpoint_path = plain "no endpoint path specified"

abbrev pub no_endpoint_spec : Error
no_endpoint_spec = plain "no endpoint spec specified"

abbrev pub no_identifier : Error
no_identifier = plain "no valid ratelimit identifier for request"

abbrev pub is_listed : String → List String → Bool
is_listed method [] = false
is_listed method (m ∷ methods) =
    let rest = is_listed method methods in if str_eq m method then true else rest

module _ {S : Type 0} where
  abbrev pub refuse : Error → S → List Reply × S
  refuse e s = (failed e ∷ [], s)

  -- A value that is missing is refused with this error.
  abbrev pub required : {A : Type 0} → Error → Option A → (A → List Reply × S) → S → List Reply × S
  required e none f s = refuse e s
  required e (some a) f s = f a

  -- `len(req.Params) > maxRequestBodySize`, where `size` is the length of the parameters.
  unfoldable pub check_params : (Params → ℕ) → Guarded S → Guarded S
  check_params size next c r s =
      let pass = next c r s in
      if ltb 5242880 (size r.params) then refuse (plain "request body too large") s else pass

  -- `MethodValidationMiddleware`
  unfoldable pub validate_method : Guarded S → Guarded S
  validate_method next c r s =
      let pass = next c r s in
      if ltb 256 (byte_length (codes r.method))
      then refuse (invalid_request "method name too long") s
      else if contains (codes r.method) (codes "_internal")
      then refuse (invalid_request "method not allowed") s
      else pass

  unfoldable pub whitelist : List String → Guarded S → Guarded S
  whitelist [] next c r s = next c r s
  whitelist (m ∷ methods) next c r s =
      let pass = next c r s in
      if is_listed r.method (m ∷ methods) then pass else refuse (plain "method not allowed") s

  abbrev pub on_identifier : Result (Option Identifier) → Guarded S → Guarded S
  on_identifier (err e) next c r s = refuse e s
  on_identifier (ok none) next c r s = next (record c { identifier = some nil_identifier }) r s
  on_identifier (ok (some i)) next c r s = next (record c { identifier = some i }) r s

  -- `WithIdentifier`; `none` is a nil identifier.
  unfoldable pub with_identifier : (Context → Result (Option Identifier)) → Guarded S → Guarded S
  with_identifier identify next c r s = on_identifier (identify c) next c r s

  abbrev pub on_allowed : Result Bool → List Reply × S → S → List Reply × S
  on_allowed (err e) pass s = refuse (rpc_error (pos 500) "Internal Server Error") s
  on_allowed (ok true) pass s = pass
  on_allowed (ok false) pass s = refuse (rpc_error (pos 429) "Rate Limit Hit") s

  -- `RuedisRatelimiter`; `allow` is `rl.AllowN`, which says whether the cost is allowed.
  unfoldable pub limit_abuse : (String → ℕ → S → Result Bool × S) → Guarded S → Guarded S
  unfolding key
  limit_abuse allow next c r s =
      required no_identifier c.identifier
        (λ i.
          let (allowed, s') = allow (key i) (suc i.extra_cost) s in
          on_allowed allowed (next c r s') s')
        s

  -- The middleware of the metrics, which asks for all three values and passes the replies on.
  unfoldable pub require_context : Guarded S → Guarded S
  require_context next c r s =
      let pass = next c r s in
      elim c.spec [
        | none ↦ refuse no_endpoint_spec s
        | some spec ↦ elim c.path [
          | none ↦ refuse no_endpoint_path s
          | some path ↦ elim c.identifier [ none ↦ refuse no_identifier s | some i ↦ pass ]
        ]
      ]

  abbrev pub after_publish : List Reply → Option Error × S → List Reply × S
  after_publish sends (none, s) = (sends, s)
  after_publish sends (some e, s) = (sends ++ (failed e ∷ []), s)

  -- The telemetry: a failure to publish is sent after the replies.
  unfoldable pub publish_after :
      (Identifier → Request → S → Option Error × S) → Guarded S → Guarded S
  publish_after publish next c r s =
      let (sends, s') = next c r s in
      required no_identifier c.identifier (λ i. after_publish sends (publish i r s')) s

  -- The handler of `createBaseHandler`, over the proxies for the paths.
  unfoldable pub base_handler : List (String × Handler S) → Guarded S
  base_handler proxies c r s =
      required no_endpoint_path c.path
        (λ target.
          required (plain ("no target proxy for " ⧺ target)) (lookup target proxies)
            (λ (proxy : Handler S). proxy r s) s)
        s

  unfoldable pub limit_all : List (String → ℕ → S → Result Bool × S) → Guarded S → Guarded S
  unfolding limit_abuse
  limit_all [] next = next
  limit_all (allow ∷ limits) next = limit_abuse allow (limit_all limits next)

-- The identifiers of the gateway: the host of the peer, or its whole address.
abbrev pub slug_of : String → Option String → String
slug_of addr none = addr
slug_of addr (some host) = host

unfoldable pub identify : (String → Option String) → Context → Result (Option Identifier)
identify split_host_port c = elim c.spec [
  | none ↦ err no_endpoint_spec
  | some name ↦ ok (
      some (record {
        endpoint = name;
        kind = "ip";
        slug = slug_of c.remote_addr (split_host_port c.remote_addr);
        extra_cost = 0;
      }))
]

-- The order in `New`, within the middlewares of subscriptions and tracing: the first is asked first.
unfoldable pub gateway :
    {S : Type 0}
    → (Params → ℕ)
    → List String
    → (String → Option String)
    → List (String → ℕ → S → Result Bool × S)
    → (Identifier → Request → S → Option Error × S)
    → List (String × Handler S)
    → Guarded S
unfolding check_params validate_method whitelist with_identifier limit_all require_context
    publish_after base_handler identify
gateway size methods split_host_port limits publish proxies = check_params size (
    validate_method (
      whitelist methods (
        with_identifier (identify split_host_port)
          (limit_all limits (require_context (publish_after publish (base_handler proxies)))))))
