-- ===== src/Node/Routed.antt =====
-- Which cluster of svc/node/quarks/cluster/cluster.go answers a request, and behind which limit.
use mathlib.Core.Path.{subst}
use venn.Prelude.{
  ℕ, ◌≡◌, ◌≢◌, ◌⊎◌, inl, inr, refl, sym, ap, ◌∙◌, String, Bool, true, false, Option, none, some,
  List, [], ◌∷◌, arith, str_eq_iff, if◌then◌else◌,
}
use venn.Prelude.Int.{pos, ltb_ℤ}
use venn.Prelude.Maps.{lookup, lookup-insert}
use venn.Rpc.{Chain, Request, Handler, Hexutil, Result}
use venn.Middlewares.LookBack.{BlockLookBack, serve as look_back}
use venn.Node.{chain_look_backs, look_back_of, clusters, limited, on_chain, on_remote}

-- No chain of the list has this name.
abbrev pub Unnamed : String → List Chain → Type 0
Unnamed name [] = Unit
Unnamed name (chain ∷ chains) = (chain.name ≢ name) × Unnamed name chains

abbrev pub DistinctNames : List Chain → Type 0
DistinctNames [] = Unit
DistinctNames (chain ∷ chains) = Unnamed chain.name chains × DistinctNames chains

abbrev pub Among : Chain → List Chain → Type 0
Among chain [] = ⊥
Among chain (c ∷ chains) = (c ≡ chain) ⊎ Among chain chains

lookup-other :
    (c : Chain) (name : String) (chains : List Chain)
    → c.name ≢ name
    → lookup name (chain_look_backs (c ∷ chains)) ≡ lookup name (chain_look_backs chains)
unfolding chain_look_backs
lookup-other c name chains n = ground (
  arith,
  str_eq_iff c.name name,
  lookup-insert c.name name (look_back_of c) (chain_look_backs chains),
)

lookup-Unnamed :
    (name : String) (chains : List Chain)
    → Unnamed name chains
    → lookup name (chain_look_backs chains) ≡ none
unfolding chain_look_backs lookup
lookup-Unnamed name [] u = refl
lookup-Unnamed name (c ∷ chains) (n, u) =
    lookup-other c name chains n ∙ lookup-Unnamed name chains u

lookup-same :
    (c : Chain) (chains : List Chain)
    → Unnamed c.name chains
    → lookup c.name (chain_look_backs (c ∷ chains))
      ≡ (if ltb_ℤ (pos 0) c.max_block_lookback then some (look_back_of c) else none)
unfolding chain_look_backs
lookup-same c chains u = ground (
  arith,
  str_eq_iff c.name c.name,
  lookup-insert c.name c.name (look_back_of c) (chain_look_backs chains),
  lookup-Unnamed c.name chains u,
)

Unnamed-ne :
    (name : String) (chain : Chain) (chains : List Chain)
    → Unnamed name chains
    → Among chain chains
    → name ≢ chain.name
Unnamed-ne name chain [] u a = absurd a
Unnamed-ne name chain (c ∷ chains) (n, u) (inl e) = λ h. n (ap Chain.name e ∙ sym h)
Unnamed-ne name chain (c ∷ chains) (n, u) (inr a) = Unnamed-ne name chain chains u a

lookup-Among :
    (chain : Chain) (chains : List Chain)
    → DistinctNames chains
    → Among chain chains
    → lookup chain.name (chain_look_backs chains)
      ≡ (if ltb_ℤ (pos 0) chain.max_block_lookback then some (look_back_of chain) else none)
lookup-Among chain [] d a = absurd a
lookup-Among chain (c ∷ chains) (u, d) (inl e) =
    subst
      (λ x.
        lookup x.name (chain_look_backs (c ∷ chains))
        ≡ (if ltb_ℤ (pos 0) x.max_block_lookback then some (look_back_of x) else none))
      e (lookup-same c chains u)
lookup-Among chain (c ∷ chains) (u, d) (inr a) =
    lookup-other c chain.name chains (Unnamed-ne c.name chain chains u a)
    ∙ lookup-Among chain chains d a

module _ (hex : Hexutil) {S : Type 0} (get : Chain → S → Result ℕ)
    (remotes : List (String × Handler S)) (chains : List Chain) (next : Option (Handler S)) where
  limited-by :
      (limit : Bool) (m : BlockLookBack) (o : Option BlockLookBack) (cluster : Handler S)
      (r : Request) (s : S)
      → o ≡ (if limit then some m else none)
      → (elim o [ none ↦ cluster r s | some l ↦ look_back hex get l cluster r s ])
        ≡ (if limit then look_back hex get m cluster r s else cluster r s)
  limited-by true m o cluster r s e = rw e refl
  limited-by false m o cluster r s e = rw e refl

  on_chain-some :
      (o : Option Chain) (chain : Chain) (cluster : Handler S) (r : Request) (s : S)
      → o ≡ some chain
      → lookup chain.name remotes ≡ some cluster
      → on_chain hex get remotes (chain_look_backs chains) o next r s
        ≡ limited hex get remotes (chain_look_backs chains) chain cluster r s
  on_chain-some o chain cluster r s e f = rw e (
      ap
        (λ (h : Option (Handler S)).
          on_remote hex get remotes (chain_look_backs chains) h next chain r s)
        f)

  -- Where the chains have distinct names, a request for one of them with a cluster is answered by that
  -- cluster, behind the middleware with the limit of that chain if the limit is above 0.
  pub clusters-routes :
      (chain : Chain) (cluster : Handler S) (r : Request) (s : S)
      → DistinctNames chains
      → Among chain chains
      → r.chain ≡ some chain
      → lookup chain.name remotes ≡ some cluster
      → clusters hex get remotes (chain_look_backs chains) next r s ≡ (
          if ltb_ℤ (pos 0) chain.max_block_lookback
          then look_back hex get (look_back_of chain) cluster r s
          else cluster r s)
  unfolding clusters
  clusters-routes chain cluster r s d a e f =
      on_chain-some r.chain chain cluster r s e f
      ∙ limited-by (ltb_ℤ (pos 0) chain.max_block_lookback) (look_back_of chain)
          (lookup chain.name (chain_look_backs chains)) cluster r s (lookup-Among chain chains d a)
