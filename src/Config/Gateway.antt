-- ===== src/Config/Gateway.antt =====
-- `ParseGatewayConfig` of lib/config/parse_gateway.go, once the YAML has been decoded.
use venn.Prelude.{
  ℕ, suc, ◌≡◌, refl, ◌↔◌, String, Bool, true, false, Option, none, some, List, [], ◌∷◌, str_eq,
  if◌then◌else◌, Bool-cases, inl, inr,
}
use Prim.Native.String.{◌++◌ as ◌⧺◌}
use venn.Rpc.{Error, plain, Result, ok, err}
use venn.Gateway.Security.{Security}
use venn.Config.{Redis, AbuseLimit, coa, is_zero_text}

-- The limits of the endpoint; `UsageLimit` is its identifier.
pub record EndpointLimits : Type 0 where
  pub abuse : List AbuseLimit
  pub usage : List String

pub record GatewayConfig : Type 0 where
  pub redis : Redis
  pub endpoint : Option EndpointLimits
  pub security : Option Security

abbrev pub default_gateway_redis : Redis → Redis
default_gateway_redis r = record {
  namespace = coa is_zero_text r.namespace "gateway-undefined";
  uri = coa is_zero_text r.uri "embedded";
}

-- The two loops over the limits; `show` is `%d`.
unfoldable pub check_ids : (ℕ → String) → String → ℕ → List String → Option Error
check_ids show what idx [] = none
check_ids show what idx (id ∷ ids) =
    let rest = check_ids show what (suc idx) ids in
    if str_eq id "" then some (plain (what ⧺ show idx ⧺ " has no id")) else rest

abbrev pub ids_of : List AbuseLimit → List String
ids_of [] = []
ids_of (l ∷ limits) = l.id ∷ ids_of limits

abbrev pub or_ok : {A : Type 0} → Option Error → Result A → Result A
or_ok (some e) r = err e
or_ok none r = r

-- `none` is the panic without an endpoint; `no_security` is the zero value.
unfoldable pub finish : (ℕ → String) → Security → GatewayConfig → Option (Result GatewayConfig)
unfolding check_ids
finish show no_security c = elim c.endpoint [
  | none ↦ none
  | some limits ↦ some (
      or_ok (check_ids show "endpoint abuse limit " 0 (ids_of limits.abuse)) (
        or_ok (check_ids show "endpointusage limit " 0 limits.usage) (
          ok (record c {
            redis = default_gateway_redis c.redis;
            security = some (elim c.security [ none ↦ no_security | some s ↦ s ]);
          }))))
]

abbrev pub with_config :
    Result GatewayConfig
    → (GatewayConfig → Option (Result GatewayConfig))
    → Option (Result GatewayConfig)
with_config (err e) f = some (err e)
with_config (ok c) f = f c

unfoldable pub parse_gateway_config :
    (ℕ → String)
    → Security
    → (String → Result GatewayConfig)
    → String
    → Option (Result GatewayConfig)
unfolding finish
parse_gateway_config show no_security unmarshal text =
    with_config (unmarshal text) (finish show no_security)

-- Limits pass exactly if each has an identifier.
abbrev pub all_named : List String → Bool
all_named [] = true
all_named (id ∷ ids) = if str_eq id "" then false else all_named ids

check_ids-none :
    (show : ℕ → String) (what : String) (idx : ℕ) (ids : List String)
    → (check_ids show what idx ids ≡ none) ↔ (all_named ids ≡ true)
unfolding check_ids
check_ids-none show what idx [] = (λ _. refl, λ _. refl)
check_ids-none show what idx (id ∷ ids) = elim (Bool-cases (str_eq id "")) [
  | inl e ↦ rw e ((λ h. cc), (λ h. cc))
  | inr e ↦ rw e (check_ids-none show what (suc idx) ids)
]
