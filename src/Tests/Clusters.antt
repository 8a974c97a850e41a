-- ===== src/Tests/Clusters.antt =====
-- The cluster of a chain with two remotes, from its configuration.
use mathlib.Core.List.{perm_append_comm}
use venn.Prelude.{ℕ, ◌≡◌, refl, none, some, List, [], ◌∷◌, str_eq, if◌then◌else◌, suc}
use venn.Prelude.Int.{pos}
use venn.Prelude.Maps.{lookup, insert}
use venn.Prelude.Order.{count}
use venn.Rpc.{Value, Params, Request, Handler, plain, fresh, ok, sent, failed}
use venn.Callcenter.Cluster.{Cluster, serve}
use venn.Callcenter.Cluster.Failover.{attempts, walk}
use venn.Config.{
  Remote, Chain, parse_node_config, parse_chains, parse_chain, parse_remotes, parse_remote,
}
use venn.Config.Endpoints.{
  NodeConfigResult, node_file_parser, add_chains, add_aliases, has, remotes_of,
}
use venn.Node.Clusters.{RemoteWithConfig, add_clusters}
use venn.Node.Clusters.Served.{serve-configured}
use venn.Tests.Configs.{remote, presets, chain, config}

abbrev local : Remote
local = record remote { filters = [] }

abbrev backup : Remote
backup = record local { name = "backup"; priority = pos 1 }

abbrev main : List Remote → Chain
main remotes = record (chain "eth" 1 []) { remotes = remotes }

abbrev written : List Remote
written = local ∷ (backup ∷ (local ∷ []))

abbrev ready : Remote → Remote
ready = parse_remote (λ s. s) presets

abbrev read : List Remote
read = ready local ∷ (ready backup ∷ (ready local ∷ []))

abbrev parsed : NodeConfigResult
parsed = record {
  redis = record { uri = "embedded"; namespace = "venn-undefined" };
  ratelimit = none;
  chains = ("eth", main read) ∷ [];
  remotes = read;
}

parsed_run : node_file_parser (λ s. s) (λ text. ok (config (main written ∷ []))) (ok "") ≡ ok parsed
unfolding node_file_parser parse_node_config parse_chains parse_chain parse_remotes add_chains
    add_aliases has remotes_of lookup insert
parsed_run = refl

-- The backup is up only.
abbrev call : RemoteWithConfig → Handler ℕ
call r req s =
    if str_eq r.config.name "backup"
    then (sent (Value.quantity 1) ∷ [], suc s)
    else (failed (plain "down") ∷ [], suc s)

abbrev request : Request
request = record { method = "eth_call"; params = Params.absent; chain = none }

serve-configured_example :
    (c : Cluster RemoteWithConfig) × ((lookup "eth" (add_clusters (λ c. pos 24) (main read ∷ []) [])
        ≡ some c)
      × (((serve call request (c, 0)).0 ≡ (walk call request (attempts c.priorities) fresh 0).0)
          × (count (λ (x : RemoteWithConfig). str_eq x.config.name "local") (attempts c.priorities)
              ≡ count (λ (x : Remote). str_eq x.name "local") read)))
serve-configured_example =
    serve-configured (λ c. pos 24) (λ s. s) (λ text. ok (config (main written ∷ []))) (ok "") parsed
      (main read ∷ []) 0 (main read) call request 0 (λ x. str_eq x.name "local") parsed_run
      (perm_append_comm [] (main read ∷ [])) refl
