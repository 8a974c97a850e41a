-- ===== src/Node.antt =====
-- svc/node: the handlers of a node around the clusters of its chains. The cluster of a chain is a handler;
-- Callcenter.Cluster has what it does.
pub mod Routed
pub mod Paths
pub mod Served
pub mod Stack
pub mod Clusters
use venn.Prelude.{
  ℕ, String, Bool, true, false, Option, none, some, List, [], ◌∷◌, ◌++◌, if◌then◌else◌,
}
use Prim.Native.String.{◌++◌ as ◌⧺◌}
use venn.Prelude.Int.{ℤ, pos, ltb_ℤ}
use venn.Prelude.Maps.{lookup, insert}
use venn.Rpc.{
  Chain, Request, Handler, Reply, Error, failed, invalid_request, no_chain, Hexutil, Result,
  intercept, fresh,
}
use venn.Util.Text.{codes, has_prefix}
use venn.Middlewares.LookBack.{BlockLookBack, serve as look_back}
use venn.Gateway.Guards.{Identifier}

abbrev pub look_back_of : Chain → BlockLookBack
look_back_of chain = record { chain_limit = chain.max_block_lookback; remote_limit = none }

-- The middlewares for the chains with a limit, of `New` in svc/node/quarks/cluster/cluster.go.
unfoldable pub chain_look_backs : List Chain → List (String × BlockLookBack)
chain_look_backs [] = []
chain_look_backs (chain ∷ chains) =
    let rest = chain_look_backs chains in
    if ltb_ℤ (pos 0) chain.max_block_lookback
    then insert chain.name (look_back_of chain) rest
    else rest

-- The identifier that svc/app/node/api.go gives a request; its test of the error is turned around.
unfoldable pub identify : (String → Option String) → String → Identifier
identify split_host_port addr = record {
  endpoint = "venn$internal";
  kind = "ip";
  slug = elim (split_host_port addr) [ some host ↦ addr | none ↦ "" ];
  extra_cost = 0;
}

module _ (hex : Hexutil) {S : Type 0} (get : Chain → S → Result ℕ)
    (remotes : List (String × Handler S)) (look_backs : List (String × BlockLookBack)) where
  -- Behind the middleware of the chain, if there is one.
  abbrev pub limited : Chain → Handler S → Handler S
  limited chain cluster r s =
      let through = cluster r s in
      elim (lookup chain.name look_backs) [
        | none ↦ through
        | some m ↦ look_back hex get m cluster r s
      ]

  abbrev pub unsupported : Option (Handler S) → Chain → Handler S
  unsupported (some next) chain r s = next r s
  unsupported none chain r s =
      (failed (invalid_request ("chain not supported: " ⧺ chain.name)) ∷ [], s)

  abbrev pub on_remote : Option (Handler S) → Option (Handler S) → Chain → Handler S
  on_remote none next chain r s = unsupported next chain r s
  on_remote (some cluster) next chain r s = limited chain cluster r s

  abbrev pub on_chain : Option Chain → Option (Handler S) → Handler S
  on_chain none next r s = (failed no_chain ∷ [], s)
  on_chain (some chain) next r s = on_remote (lookup chain.name remotes) next chain r s

  -- `Clusters.Middleware`; the next handler of the node is nil.
  unfoldable pub clusters : Option (Handler S) → Handler S
  clusters next r s = on_chain r.chain next r s

-- The labels that svc/node/middlewares/promcollect/collector.go has observed, the latest first.
pub record Label : Type 0 where
  pub chain : String
  pub method : String
  pub success : Bool

abbrev pub observe : Option Chain → Request → Reply → List Label → List Label
observe none r icept labels = labels
observe (some chain) r icept labels =
    record {
      chain = chain.name;
      method = r.method;
      success = elim icept.error [ none ↦ true | some e ↦ false ];
    }
    ∷ labels

-- `Collector.Middleware` there; `subscribes` is `strings.HasSuffix(r.Method, "_subscribe")`.
unfoldable pub collect : {S : Type 0} → (String → Bool) → Handler S → Handler (List Label × S)
collect subscribes next r (labels, s) =
    let (sends, s') = next r s in
    let icept = intercept fresh sends in
    if subscribes r.method
    then (sends, (labels, s'))
    else (icept ∷ [], (observe r.chain r icept labels, s'))
