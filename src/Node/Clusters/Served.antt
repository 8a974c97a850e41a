-- ===== src/Node/Clusters/Served.antt =====
-- How the cluster of a configured chain answers, from the file of the configuration to the failover among
-- the chain's remotes.
use mathlib.Core.List.{Perm}
use mathlib.Core.Path.{subst}
use venn.Prelude.{
  ℕ, zero, suc, ◌+◌, ◌≤◌, ◌≡◌, refl, ap, ◌∙◌, inl, inr, String, Bool, some, List, [], ◌∷◌, ◌++◌,
  arith, get_elem?, str_eq, str_eq_iff, Bool-cases, some-injective,
}
use venn.Prelude.Int.{ℤ, eqb_ℤ, ltb_ℤ}
use venn.Prelude.Duration.{Duration}
use venn.Prelude.Maps.{lookup, insert, lookup-insert}
use venn.Prelude.Order.{count, count-append, count-perm}
use venn.Callcenter.Cluster.{Priority, Cluster, new_cluster, insert_group, add, serve}
use venn.Callcenter.Cluster.Failover.{
  AllInhabited, attempts, all_remotes, attempts-perm, walk, serve-walk,
}
use venn.Callcenter.Cluster.Added.{AllInhabited-insert_group}
use venn.Rpc.{Request, Reply, Handler, fresh, Result, ok}
use venn.Config.{Remote, Chain, NodeConfig}
use venn.Config.Endpoints.Distinct.{times, names_of, values, node_file_parser-Separate}
use venn.Config.Endpoints.{NodeConfigResult, node_file_parser}
use venn.Node.Clusters.{RemoteWithConfig, with_config, add_remotes, add_clusters}

times-names :
    (e : String) (cs : List Chain)
    → times e (names_of cs) ≡ count (λ (c : Chain). str_eq c.name e) cs
times-names e [] = refl
times-names e (c ∷ cs) = let rec = times-names e cs in ground arith

module _ {R : Type 0} where
  -- A remote that is added is one more, whatever its priority.
  count-insert_group :
      (t : R → Bool) (p : ℤ) (r : R) (gs : List (Priority R))
      → count t (all_remotes (insert_group p r gs)) ≡ count t (r ∷ all_remotes gs)
  unfolding insert_group
  count-insert_group t p r [] = refl
  count-insert_group t p r (g ∷ gs) =
      let rec = count-insert_group t p r gs in
      let split = count-append t g.remotes (all_remotes gs) in
      let grown = count-append t g.remotes (all_remotes (insert_group p r gs)) in
      let joined = count-append t (g.remotes ++ (r ∷ [])) (all_remotes gs) in
      let one = count-append t g.remotes (r ∷ []) in
      elim (Bool-cases (ltb_ℤ g.priority p)) [
        | inl k ↦ rw k (ground arith)
        | inr k ↦ rw k (elim (Bool-cases (eqb_ℤ g.priority p)) [
          | inl j ↦ rw j (ground arith)
          | inr j ↦ rw j refl
        ])
      ]

times_self : (d : Chain) (cs : List Chain) → 1 ≤ times d.name (names_of (d ∷ cs))
times_self d cs = rw ((str_eq_iff d.name d.name).1 refl) (omega arith)

times_rest :
    (d : Chain) (cs : List Chain)
    → times d.name (names_of (d ∷ cs)) ≤ 1
    → times d.name (names_of cs) ≡ 0
times_rest d cs h =
    let one : suc (times d.name (names_of cs)) ≤ 1 = rw ((str_eq_iff d.name d.name).1 refl) at h in
    omega (arith, one)

times_tail :
    (d : Chain) (cs : List Chain) (e : String)
    → times e (names_of (d ∷ cs)) ≤ 1
    → times e (names_of cs) ≤ 1
times_tail d cs e h = ground arith

module _ (two_blocks : Chain → Duration) where
  -- The cluster of a chain has its remotes, each as often as the configuration.
  count-add_remotes :
      (t : Remote → Bool) (chain : Chain) (remotes : List Remote) (c : Cluster RemoteWithConfig)
      → count
          (λ (r : RemoteWithConfig). t r.config)
          (all_remotes (add_remotes two_blocks chain remotes c).priorities)
        ≡ count (λ (r : RemoteWithConfig). t r.config) (all_remotes c.priorities) + count t remotes
  unfolding add_remotes add
  count-add_remotes t chain [] c = omega arith
  count-add_remotes t chain (cfg ∷ remotes) c =
      let r = with_config two_blocks chain cfg in
      let rest = count-add_remotes t chain remotes (add cfg.priority r c) in
      let one =
        count-insert_group (λ (r : RemoteWithConfig). t r.config) cfg.priority r c.priorities in
      elim (Bool-cases (t cfg)) [
        | inl k ↦ rw k (rest ∙ (rw (one, k) (omega arith)))
        | inr k ↦ rw k (rest ∙ (rw (one, k) refl))
      ]

  AllInhabited-add_remotes :
      (chain : Chain) (remotes : List Remote) (c : Cluster RemoteWithConfig)
      → AllInhabited c.priorities
      → AllInhabited (add_remotes two_blocks chain remotes c).priorities
  unfolding add_remotes add
  AllInhabited-add_remotes chain [] c h = h
  AllInhabited-add_remotes chain (cfg ∷ remotes) c h =
      AllInhabited-add_remotes chain remotes _
        (AllInhabited-insert_group cfg.priority _ c.priorities h)

  -- The cluster of a chain, where no other chain has its name.
  lookup-add_clusters-none :
      (name : String) (chains : List Chain) (m : List (String × Cluster RemoteWithConfig))
      → times name (names_of chains) ≡ 0
      → lookup name (add_clusters two_blocks chains m) ≡ lookup name m
  unfolding add_clusters
  lookup-add_clusters-none name [] m h = refl
  lookup-add_clusters-none name (d ∷ chains) m h = elim (Bool-cases (str_eq d.name name)) [
    | inl k ↦ absurd (ground (arith, k))
    | inr k ↦
        lookup-add_clusters-none name chains _ (rw k at h)
        ∙ lookup-insert d.name name _ m
        ∙ rw k refl
  ]

  abbrev cluster_of : Chain → Cluster RemoteWithConfig
  cluster_of chain = add_remotes two_blocks chain chain.remotes new_cluster

  times-some :
      (cs : List Chain) (i : ℕ) (c : Chain)
      → get_elem? cs i ≡ some c
      → 1 ≤ times c.name (names_of cs)
  times-some [] i c g = absurd (ground arith)
  times-some (d ∷ cs) zero c g =
      subst (λ (x : Chain). 1 ≤ times x.name (names_of (d ∷ cs))) (some-injective _ _ g)
        (times_self d cs)
  times-some (d ∷ cs) (suc i) c g = let rec = times-some cs i c g in ground arith

  lookup-add_clusters :
      (cs : List Chain) (m : List (String × Cluster RemoteWithConfig)) (i : ℕ) (c : Chain)
      → times c.name (names_of cs) ≤ 1
      → get_elem? cs i ≡ some c
      → lookup c.name (add_clusters two_blocks cs m) ≡ some (cluster_of c)
  unfolding add_clusters
  lookup-add_clusters [] m i c l g = absurd (ground arith)
  lookup-add_clusters (d ∷ cs) m zero c l g =
      subst
        (λ (x : Chain).
          times x.name (names_of (d ∷ cs)) ≤ 1
          → lookup x.name (add_clusters two_blocks cs (insert d.name (cluster_of d) m))
            ≡ some (cluster_of x))
        (some-injective _ _ g)
        (λ h.
          lookup-add_clusters-none d.name cs _ (times_rest d cs h)
          ∙ lookup-insert d.name d.name (cluster_of d) m
          ∙ rw ((str_eq_iff d.name d.name).1 refl) refl)
        l
  lookup-add_clusters (d ∷ cs) m (suc i) c l g =
      lookup-add_clusters cs (insert d.name (cluster_of d) m) i c (times_tail d cs c.name l) g

  -- From an accepted configuration on: whatever the order in which the chains are visited, each chain gets a
  -- cluster, which answers a request as one walk over a list of remotes answers it, and the list has each
  -- remote of the chain as often as the configuration, and no other.
  pub serve-configured :
      {S : Type 0} (expand_env : String → String) (unmarshal : String → Result NodeConfig)
      (file : Result String) (res : NodeConfigResult) (order : List Chain) (i : ℕ) (chain : Chain)
      (call : RemoteWithConfig → Handler S) (r : Request) (s : S) (t : Remote → Bool)
      → node_file_parser expand_env unmarshal file ≡ ok res
      → Perm (values res.chains) order
      → get_elem? order i ≡ some chain
      → (c : Cluster RemoteWithConfig) × ((lookup chain.name (add_clusters two_blocks order [])
            ≡ some c)
          × (((serve call r (c, s)).0 ≡ (walk call r (attempts c.priorities) fresh s).0)
              × (count (λ (x : RemoteWithConfig). t x.config) (attempts c.priorities)
                  ≡ count t chain.remotes)))
  unfolding new_cluster
  serve-configured {S} expand_env unmarshal file res order i chain call r s t accepted p g =
      let c = cluster_of chain in
      let inhabited = AllInhabited-add_remotes chain chain.remotes new_cluster tt in
      let once = node_file_parser-Separate expand_env unmarshal file res accepted chain.name in
      let tc = λ (x : RemoteWithConfig). t x.config in
      let moved = count-perm tc _ _ (attempts-perm c.priorities) in
      let added = count-add_remotes t chain chain.remotes new_cluster in
      let named = λ (x : Chain). str_eq x.name chain.name in
      let few : times chain.name (names_of order) ≤ 1 = omega (
        arith,
        once.0,
        times-names chain.name order,
        times-names chain.name (values res.chains),
        count-perm named (values res.chains) order p,
      ) in
      (
        c,
        (
          lookup-add_clusters order [] i chain few g,
          (
            ap (λ (x : List Reply × S). x.0) (serve-walk call r c s inhabited),
            omega (arith, moved, added),
          ),
        ),
      )
