-- ===== src/Tests/Configs.antt =====
-- A configuration of two chains, from its parsing to the router and to the filterer of a remote.
use mathlib.Core.List.{perm_append_comm}
use venn.Prelude.{
  ℕ, ◌≡◌, refl, inl, inr, String, true, false, Option, none, some, List, [], ◌∷◌, ◌++◌, str_eq,
  str_eq_iff, Bool-cases,
}
use venn.Prelude.Int.{pos}
use venn.Prelude.Maps.{lookup, insert}
use venn.Middlewares.Guards.{filterer}
use venn.Rpc.{
  Value, Params, Request, Handler, plain, Result, ok, err, sent, failed, err_method_not_allowed,
}
use venn.Config.{
  Filter, Remote, Chain, NodeConfig, parse_node_config, parse_chains, parse_chain, parse_remotes,
  parse_remote,
}
use venn.Config.Endpoints.{
  NodeConfigResult, node_file_parser, add_chains, add_aliases, has, remotes_of,
}
use venn.Config.Presets.{new_remote_target, filterer-last_word}
use venn.Node.Paths.{Mounted, to_chain, route}
use venn.Node.Served.{MountsNew, Unmixed, route-serves}
use venn.Node.Served.Tables.{Table}

abbrev pub presets : List Filter
presets =
    record { name = "read"; methods = ("eth_call", true) ∷ (("debug_trace", true) ∷ []) }
    ∷ (record { name = "cheap"; methods = ("debug_trace", false) ∷ [] } ∷ [])

abbrev pub remote : Remote
remote = record {
  name = "local";
  url = "http://localhost";
  priority = pos 0;
  headers = [];
  health_check_interval_min = pos 0;
  health_check_interval_max = pos 0;
  rate_limit_backoff = pos 0;
  error_backoff_min = pos 0;
  error_backoff_max = pos 0;
  filters = "read" ∷ ("cheap" ∷ []);
  parsed_filters = [];
  max_block_lookback = pos 0;
}

abbrev pub chain : String → ℕ → List String → Chain
chain name id aliases = record {
  name = name;
  id = pos id;
  aliases = aliases;
  remotes = [];
  stalk = none;
  parsed_stalk = true;
  max_block_lookback = pos 0;
}

abbrev pub eth : Chain
eth = chain "eth" 1 ("mainnet" ∷ [])

abbrev op : Chain
op = chain "op" 10 []

abbrev pub config : List Chain → NodeConfig
config chains = record {
  redis = record { uri = ""; namespace = "" };
  ratelimit = none;
  chains = chains;
  filters = presets;
}

abbrev parsed : NodeConfigResult
parsed = record {
  redis = record { uri = "embedded"; namespace = "venn-undefined" };
  ratelimit = none;
  chains = ("eth", eth) ∷ (("op", op) ∷ []);
  remotes = [];
}

abbrev parses : List Chain → Result NodeConfigResult
parses chains = node_file_parser (λ s. s) (λ text. ok (config chains)) (ok "")

accepted_run : parses (eth ∷ (op ∷ [])) ≡ ok parsed
unfolding node_file_parser parse_node_config parse_chains parse_chain parse_remotes add_chains
    add_aliases has remotes_of lookup insert
accepted_run = refl

-- A chain with the name of an earlier alias is accepted, and an alias that is an earlier name is not.
shadowed_run : (m : NodeConfigResult) × (parses (eth ∷ (chain "mainnet" 2 [] ∷ [])) ≡ ok m)
unfolding node_file_parser parse_node_config parse_chains parse_chain parse_remotes add_chains
    add_aliases has remotes_of lookup insert
shadowed_run = (_, refl)

conflict_run :
    parses (chain "mainnet" 2 [] ∷ (eth ∷ [])) ≡ err (plain "chain alias conflict: mainnet")
unfolding node_file_parser parse_node_config parse_chains parse_chain parse_remotes add_chains
    add_aliases has remotes_of lookup insert
conflict_run = refl

-- A router that keeps what is mounted, and panics at a path that it has.
abbrev mount : String → Mounted → Table → Option Table
mount p h t = elim (lookup p t) [ none ↦ some (t ++ ((p, h) ∷ [])) | some _ ↦ none ]

mount-new : MountsNew mount (λ t. t)
mount-new p h r plain others e = (r ++ ((p, h) ∷ []), (rw (e, mount) refl, refl))

unmixed : Unmixed (eth ∷ (op ∷ []))
unmixed e = elim (Bool-cases (str_eq "mainnet" e)) [
  | inl k ↦ rw (← (str_eq_iff "mainnet" e).0 k) (inl refl, inl refl)
  | inr k ↦ rw k (
    inr refl,
    elim (Bool-cases (str_eq "health" e)) [
      | inl j ↦ rw (← (str_eq_iff "health" e).0 j) (inr (refl, refl))
      | inr j ↦ rw j (elim (Bool-cases (str_eq "dashboard" e)) [
        | inl i ↦ rw (← (str_eq_iff "dashboard" e).0 i) (inr (refl, refl))
        | inr i ↦ rw i (inl refl)
      ])
    ],
  )
]

route-serves_example :
    (r' : Table) × ((route mount (op ∷ (eth ∷ [])) [] ≡ some r')
      × (lookup "mainnet" r' ≡ some (to_chain eth)))
unfolding has
route-serves_example =
    route-serves mount (λ t. t) mount-new (λ s. s) (λ text. ok (config (eth ∷ (op ∷ [])))) (ok "")
      parsed (op ∷ (eth ∷ [])) [] 1 eth "mainnet" accepted_run unmixed
      ((refl, tt), ((refl, (refl, tt)), tt)) (perm_append_comm (eth ∷ []) (op ∷ [])) refl refl refl

abbrev answers : Handler ℕ
answers r s = (sent (Value.quantity 1) ∷ [], s)

abbrev asked : String → Request
asked method = record { method = method; params = Params.absent; chain = none }

filterer-last_word_example :
    filterer
      ((new_remote_target (pos 0) (parse_remote (λ s. s) presets remote) eth).methods)
      answers
      (asked "debug_trace")
      0
    ≡ (failed err_method_not_allowed ∷ [], 0)
unfolding lookup
filterer-last_word_example =
    filterer-last_word (λ s. s) presets (pos 0) remote eth answers (asked "debug_trace") 0
