-- ===== src/Config/Endpoints.antt =====
-- The names under which the chains of a configuration are served: the last part of `NodeFileParser` in
-- lib/config/parse_node.go. The logger that it makes before is left out.
pub mod Distinct
use venn.Prelude.{
  String, Bool, true, false, Option, none, some, List, [], ◌∷◌, ◌++◌, str_eq, if◌then◌else◌,
}
use Prim.Native.String.{◌++◌ as ◌⧺◌}
use venn.Prelude.Maps.{lookup, insert}
use venn.Rpc.{Error, plain, Result, ok, err}
use venn.Config.{Chain, Remote, Redis, AbuseLimit, NodeConfig, and_then, parse_node_config}

-- `NodeConfigResult`, without the parts that are passed on as they are.
pub record NodeConfigResult : Type 0 where
  pub redis : Redis
  pub ratelimit : Option AbuseLimit
  pub chains : List (String × Chain)
  pub remotes : List Remote

-- `_, ok := endpoints[name]` for the keys of a map
unfoldable pub has : String → List String → Bool
has name [] = false
has name (e ∷ endpoints) = let later = has name endpoints in if str_eq e name then true else later

abbrev pub is_there : {A : Type 0} → Option A → Bool
is_there none = false
is_there (some a) = true

unfoldable pub add_aliases : List String → List String → Result (List String)
unfolding has
add_aliases endpoints [] = ok endpoints
add_aliases endpoints (a ∷ aliases) =
    let rest = add_aliases (a ∷ endpoints) aliases in
    if has a endpoints then err (plain ("chain alias conflict: " ⧺ a)) else rest

unfoldable pub add_chains :
    List (String × Chain) → List String → List Chain → Result (List (String × Chain))
unfolding add_aliases
add_chains chains endpoints [] = ok chains
add_chains chains endpoints (c ∷ cs) =
    let rest =
      and_then (add_aliases (c.name ∷ endpoints) c.aliases)
        (λ endpoints'. add_chains (insert c.name c chains) endpoints' cs) in
    if is_there (lookup c.name chains) then err (plain ("chain name conflict: " ⧺ c.name)) else rest

unfoldable pub remotes_of : List Chain → List Remote
remotes_of [] = []
remotes_of (c ∷ chains) = c.remotes ++ remotes_of chains

-- `NodeFileParser`; `read_file` is `os.ReadFile` of the file.
unfoldable pub node_file_parser :
    (String → String) → (String → Result NodeConfig) → Result String → Result NodeConfigResult
unfolding parse_node_config add_chains remotes_of
node_file_parser expand_env unmarshal read_file = and_then read_file (λ text.
    and_then (parse_node_config expand_env unmarshal text) (λ cfg.
      and_then (add_chains [] [] cfg.chains) (λ chains. ok (record {
        redis = cfg.redis;
        ratelimit = cfg.ratelimit;
        chains = chains;
        remotes = remotes_of cfg.chains;
      }))))
