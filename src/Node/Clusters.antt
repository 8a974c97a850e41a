-- ===== src/Node/Clusters.antt =====
-- `New` of svc/node/quarks/cluster/cluster.go: the clusters of the chains of a configuration, after the hooks
-- that add their remotes, which run in order. The metrics are left out.
pub mod Served
use venn.Prelude.{ℕ, String, Option, none, some, List, [], ◌∷◌}
use venn.Prelude.Duration.{Duration}
use venn.Prelude.Maps.{lookup, insert}
use venn.Callcenter.Cluster.{Cluster, new_cluster, add}
use venn.Config.{Remote, Chain}
use venn.Config.Presets.{RemoteTarget, new_remote_target}

-- `RemoteWithConfig`, with the middlewares from which its handler is stacked
pub record RemoteWithConfig : Type 0 where
  pub middlewares : RemoteTarget
  pub config : Remote

module _ (two_blocks : Chain → Duration) where
  abbrev pub with_config : Chain → Remote → RemoteWithConfig
  with_config chain cfg = record {
    middlewares = new_remote_target (two_blocks chain) cfg chain;
    config = cfg;
  }

  unfoldable pub add_remotes :
      Chain → List Remote → Cluster RemoteWithConfig → Cluster RemoteWithConfig
  unfolding add new_remote_target
  add_remotes chain [] c = c
  add_remotes chain (cfg ∷ remotes) c =
      add_remotes chain remotes (add cfg.priority (with_config chain cfg) c)

  -- The loop over the chains, which come in any order.
  unfoldable pub add_clusters :
      List Chain
      → List (String × Cluster RemoteWithConfig)
      → List (String × Cluster RemoteWithConfig)
  unfolding add_remotes
  add_clusters [] clusters = clusters
  add_clusters (chain ∷ chains) clusters =
      add_clusters chains (insert chain.name (add_remotes chain chain.remotes new_cluster) clusters)
