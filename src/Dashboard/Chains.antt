-- ===== src/Dashboard/Chains.antt =====
-- dashboard/handler.go: the list of the chains, and the page of one.
use venn.Prelude.{ℕ, ◌≡◌, String, Bool, true, false, Option, none, some, List, [], ◌∷◌}
use venn.Prelude.Maps.{lookup}
use venn.Prelude.Order.{Ordered, sort}
use venn.Rpc.{Result}
use venn.Config.{Chain}
use venn.Dashboard.{RemoteInfo, ChainInfo, chain_info}

module _ ⦃names : Ordered String⦄ where
  abbrev pub chain_le : ChainInfo → ChainInfo → Bool
  chain_le a b = names.le a.name b.name

  pub chain_le-total : (a b : ChainInfo) → chain_le a b ≡ false → chain_le b a ≡ true
  chain_le-total a b h = names.total a.name b.name h

  pub chain_le_trans :
      (a b c : ChainInfo) → chain_le a b ≡ true → chain_le b c ≡ true → chain_le a c ≡ true
  chain_le_trans a b c h k = names.trans a.name b.name c.name h k

  instance abbrev pub chain_ordered : Ordered ChainInfo
  chain_ordered = record { le = chain_le; total = chain_le-total; trans = chain_le_trans }

-- `GetMiddlewares()[chainName]`, of which a missing entry has no remotes
abbrev pub targets_of : {T : Type 0} → Option (List (String × T)) → List (String × T)
targets_of none = []
targets_of (some targets) = targets

abbrev pub is_present : {A : Type 0} → Option A → Bool
is_present none = false
is_present (some a) = true

-- The clusters, of which only their names count here, the targets and the head store, of which the state is read.
module _ {C T S : Type 0} (get_head : T → S → ℕ) (can_use : T → S → Bool × S)
    (get_last_error : T → S → String) (has_look_back : T → Bool) (clusters : List (String × C))
    (middlewares : List (String × List (String × T))) (get : Chain → S → Result ℕ) where
  -- One round of the loop of `getChainInfos`.
  abbrev pub shown : ⦃names : Ordered String⦄ → Chain → S → (ChainInfo × List RemoteInfo) × S
  shown chain s =
      chain_info get_head can_use get_last_error has_look_back chain (get chain s)
        (is_present (lookup chain.name clusters)) (targets_of (lookup chain.name middlewares)) s

  unfoldable pub each_chain : ⦃names : Ordered String⦄ → List Chain → S → List ChainInfo × S
  unfolding chain_info
  each_chain [] s = ([], s)
  each_chain (chain ∷ chains) s =
      let ((info, remotes), s1) = shown chain s in
      let (infos, s2) = each_chain chains s1 in (info ∷ infos, s2)

  -- `getChainInfos`
  unfoldable pub get_chain_infos : ⦃names : Ordered String⦄ → List Chain → S → List ChainInfo × S
  unfolding each_chain
  get_chain_infos chains s = let (infos, s') = each_chain chains s in (sort infos, s')

  abbrev pub of_chain :
      ⦃names : Ordered String⦄ → Option Chain → S → Option (ChainInfo × List RemoteInfo) × S
  of_chain none s = (none, s)
  of_chain (some chain) s = let (shown_of, s') = shown chain s in (some shown_of, s')

  -- `handleChainDetail`, and of its answer the remotes `handleRemotesUpdate`; `none` is the status 404.
  unfoldable pub handle_chain_detail :
      ⦃names : Ordered String⦄
      → List (String × Chain)
      → String
      → S
      → Option (ChainInfo × List RemoteInfo) × S
  unfolding chain_info
  handle_chain_detail chains name s = of_chain (lookup name chains) s
