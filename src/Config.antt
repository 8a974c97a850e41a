-- ===== src/Config.antt =====
-- lib/config: what config.go, parse_node.go and lib/util/coalesce.go make of the configuration of a node,
-- once the YAML has been decoded. The pointers in the lists are there; durations are in nanoseconds.
pub mod Endpoints
pub mod Presets
pub mod Gateway
use venn.Prelude.{
  ℕ, zero, suc, ◌*◌, String, Bool, true, false, Option, none, some, List, [], ◌∷◌, ◌++◌, str_eq,
  if◌then◌else◌,
}
use venn.Prelude.Int.{ℤ, pos, eqb_ℤ, ltb_ℤ}
use venn.Prelude.Duration.{Duration, second}
use venn.Rpc.{Error, plain, Result, ok, err}
use Prim.Native.String.{◌++◌ as ◌⧺◌}

pub record Filter : Type 0 where
  pub name : String
  pub methods : List (String × Bool)

-- Without the description, the rate limit and the rewriting of calls.
pub record Remote : Type 0 where
  pub name : String
  pub url : String
  pub priority : ℤ
  pub headers : List (String × String)
  pub health_check_interval_min : Duration
  pub health_check_interval_max : Duration
  pub rate_limit_backoff : Duration
  pub error_backoff_min : Duration
  pub error_backoff_max : Duration
  pub filters : List String
  pub parsed_filters : List Filter
  pub max_block_lookback : ℤ

-- Without the block time, the oracles and the forging of receipts.
pub record Chain : Type 0 where
  pub name : String
  pub id : ℤ
  pub aliases : List String
  pub remotes : List Remote
  pub stalk : Option Bool
  pub parsed_stalk : Bool
  pub max_block_lookback : ℤ

pub record Redis : Type 0 where
  pub uri : String
  pub namespace : String

pub record AbuseLimit : Type 0 where
  pub id : String
  pub total : ℤ
  pub window : Duration

pub record NodeConfig : Type 0 where
  pub redis : Redis
  pub ratelimit : Option AbuseLimit
  pub chains : List Chain
  pub filters : List Filter

-- `Coa`, with the test for the zero value of the type, and `CoaFunc` of a pointer
abbrev pub coa : {A : Type 0} → (A → Bool) → A → A → A
coa is_zero v fallback = if is_zero v then fallback else v

abbrev pub coa_func : {A B : Type 0} → (A → Result B) → Option A → B → Result B
coa_func fn none fallback = ok fallback
coa_func fn (some v) fallback = fn v

abbrev pub is_zero_text : String → Bool
is_zero_text v = str_eq v ""

abbrev pub is_zero : ℤ → Bool
is_zero v = eqb_ℤ v (pos 0)

abbrev pub seconds : ℕ → Duration
seconds n = pos (n * second)

abbrev pub default_redis : Redis → Redis
default_redis r = record {
  namespace = coa is_zero_text r.namespace "venn-undefined";
  uri = coa is_zero_text r.uri "embedded";
}

abbrev pub default_ratelimit : AbuseLimit → AbuseLimit
default_ratelimit l = record l {
  total = coa is_zero l.total (pos 2000);
  window = coa is_zero l.window (seconds 10);
}

-- The filters of one name, in the order of the configuration, before those of the other presets.
unfoldable pub with_preset : String → List Filter → List Filter → List Filter
with_preset preset [] others = others
with_preset preset (f ∷ filters) others =
    let rest = with_preset preset filters others in if str_eq preset f.name then f ∷ rest else rest

unfoldable pub parse_filters : List Filter → List String → List Filter
unfolding with_preset
parse_filters filters [] = []
parse_filters filters (preset ∷ presets) =
    with_preset preset filters (parse_filters filters presets)

-- `if err != nil { return nil, err }`
abbrev pub and_then : {A B : Type 0} → Result A → (A → Result B) → Result B
and_then (err e) f = err e
and_then (ok a) f = f a

module _ (expand_env : String → String) (filters : List Filter) where
  abbrev pub expand_headers : List (String × String) → List (String × String)
  expand_headers [] = []
  expand_headers ((key, value) ∷ headers) = (key, expand_env value) ∷ expand_headers headers

  unfoldable pub parse_remote : Remote → Remote
  unfolding parse_filters
  parse_remote r = record r {
    headers = expand_headers r.headers;
    health_check_interval_min = coa is_zero r.health_check_interval_min (seconds 60);
    health_check_interval_max = coa is_zero r.health_check_interval_max (seconds 3600);
    rate_limit_backoff = coa is_zero r.rate_limit_backoff (seconds 5);
    error_backoff_min = coa is_zero r.error_backoff_min (seconds 5);
    error_backoff_max = coa is_zero r.error_backoff_max (seconds 5);
    parsed_filters = parse_filters filters r.filters;
  }

  -- The name of the chain is tested once for each of its remotes.
  unfoldable pub parse_remotes : String → List Remote → Result (List Remote)
  unfolding parse_remote
  parse_remotes name [] = ok []
  parse_remotes name (r ∷ remotes) =
      let parsed = and_then (parse_remotes name remotes) (λ rest. ok (parse_remote r ∷ rest)) in
      if str_eq name "health" then err (plain "chain name cannot be \"health\"") else parsed

  unfoldable pub parse_chain : Chain → Result Chain
  unfolding parse_remotes
  parse_chain c = and_then (coa_func ok c.stalk true) (λ stalk.
      and_then (parse_remotes c.name c.remotes)
        (λ remotes. ok (record c { parsed_stalk = stalk; remotes = remotes })))

  unfoldable pub parse_chains : List Chain → Result (List Chain)
  unfolding parse_chain
  parse_chains [] = ok []
  parse_chains (c ∷ chains) =
      and_then (parse_chain c) (λ c'. and_then (parse_chains chains) (λ rest. ok (c' ∷ rest)))

-- `ParseNodeConfig`; `unmarshal` is `yaml.Unmarshal` into a fresh record.
unfoldable pub parse_node_config :
    (String → String) → (String → Result NodeConfig) → String → Result NodeConfig
unfolding parse_chains
parse_node_config expand_env unmarshal text = and_then (unmarshal text) (λ c.
    and_then (parse_chains expand_env c.filters c.chains) (λ chains. ok (record {
      redis = default_redis c.redis;
      ratelimit = elim c.ratelimit [ none ↦ none | some l ↦ some (default_ratelimit l) ];
      chains = chains;
      filters = c.filters;
    })))
