-- ===== src/Tests/Nodes.antt =====
-- The clusters of a node at concrete inputs.
use venn.Prelude.{
  ℕ, suc, ◌≡◌, refl, true, false, none, inl, inr, some, [], ◌∷◌, ap, str_eq, if◌then◌else◌, length,
}
use venn.Prelude.Int.{pos, ltb_ℤ}
use venn.Prelude.Maps.{lookup}
use venn.Rpc.{doc, arr, nil, null, raw, sent, Chain, Request, Handler, ok, intercept}
use venn.Middlewares.LookBack.{serve as look_back}
use venn.Node.{clusters, chain_look_backs, look_back_of, collect}
use venn.Node.Stack.{node, node-replies}
use venn.Gateway.Guards.{Context}
use venn.Node.Routed.{clusters-routes}
use venn.Tests.Hex.{hexutil}
use venn.Tests.Data.{mainnet, false_ne, same_bool}

abbrev testnet : Chain
testnet = record mainnet { name = "testnet"; max_block_lookback = pos 128 }

abbrev counting : Handler ℕ
counting r s = (sent (raw null) ∷ [], suc s)

abbrev call : Request
call = record { method = "eth_chainId"; params = doc (arr nil); chain = some testnet }

found : lookup "testnet" (("testnet", counting) ∷ []) ≡ some counting
unfolding lookup
found = refl

clusters-routes_example :
    clusters hexutil
      (λ c s. ok 1000)
      (("testnet", counting) ∷ [])
      (chain_look_backs (mainnet ∷ testnet ∷ []))
      none
      call
      0
    ≡ (if ltb_ℤ (pos 0) testnet.max_block_lookback
        then look_back hexutil (λ c s. ok 1000) (look_back_of testnet) counting call 0
        else counting call 0)
clusters-routes_example =
    clusters-routes hexutil (λ c s. ok 1000) (("testnet", counting) ∷ []) (mainnet ∷ testnet ∷ [])
      none testnet counting call 0
      (((λ e. false_ne (ap (λ s. str_eq s "mainnet") e), tt)), (tt, tt)) (inr (inl refl)) refl found

observed : collect (λ m. false) counting call ([], 0) ≡ (
  sent (raw null) ∷ [],
  (record { chain = "testnet"; method = "eth_chainId"; success = true } ∷ [], 1),
)
unfolding collect intercept
observed = refl

abbrev from : Context
from = record { path = none; spec = none; identifier = none; remote_addr = "10.0.0.1:4000" }

abbrev twice : Handler ℕ
twice r s = (sent (raw null) ∷ (sent (raw null) ∷ []), suc s)

node-replies_example :
    length (
      (node hexutil same_bool
        (λ c s. ok 1000)
        true
        (raw null)
        true
        true
        (λ m. false)
        none
        (λ a. none)
        twice
        from
        call
        (some ([], 0))).0)
    ≡ 1
node-replies_example =
    node-replies hexutil same_bool (λ c s. ok 1000) true (raw null) true (λ m. false) none
      (λ a. none) twice from call testnet ([], 0) refl refl
