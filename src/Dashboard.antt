-- ===== src/Dashboard.antt =====
-- dashboard/handler.go: what the dashboard shows of the chains and their remotes. The pages, the latencies, the
-- rates and the shared flights are left out; T is a `RemoteTarget` whose parts are there.
pub mod Agrees
pub mod Chains
use venn.Prelude.{
  ℕ, zero, suc, ◌+◌, ◌-◌, ◌≡◌, arith, String, Bool, true, false, ◌&&◌, Option, none, some, List, [],
  ◌∷◌, str_eq, ltb, length, if◌then◌else◌,
}
use venn.Prelude.Int.{ℤ, pos, ◌-ℤ◌, eqb_ℤ, ltb_ℤ}
use venn.Prelude.Int64.{wrap}
use venn.Prelude.Maps.{lookup}
use venn.Prelude.Order.{Ordered, sort, count}
use venn.Rpc.{Result, ok, err}
use venn.Callcenter.Doctor.{Health, unknown, healthy, unhealthy}
use venn.Ethtypes.BlockNumber.{to_uint64}
use venn.Config.{Remote, Chain}

pub record RemoteInfo : Type 0 where
  pub name : String
  pub status : Health
  pub latest_block : ℕ
  pub blocks_behind : ℤ
  pub last_error : String
  pub priority : ℤ
  pub max_block_lookback : ℤ

pub record ChainInfo : Type 0 where
  pub name : String
  pub chain_id : ℕ
  pub head_block : ℕ
  pub status : Health
  pub remote_count : ℕ
  pub healthy_count : ℕ
  pub unhealthy_count : ℤ

-- The remote of the configuration with this name, the first if there are several.
unfoldable pub find_remote : String → List Remote → Option Remote
find_remote name [] = none
find_remote name (r ∷ remotes) =
    let later = find_remote name remotes in if str_eq r.name name then some r else later

-- The difference of the two numbers as signed integers of 64 bits, if both are known
abbrev pub blocks_behind : ℕ → ℕ → ℤ
blocks_behind head latest =
    if ltb 0 head && ltb 0 latest then wrap (wrap (pos head) -ℤ wrap (pos latest)) else pos 0

-- `headBlock, _ := h.headstore.Get(...)`
abbrev pub or_zero : Result ℕ → ℕ
or_zero (ok n) = n
or_zero (err e) = 0

abbrev pub status_of : Bool → Health
status_of true = healthy
status_of false = unhealthy

abbrev pub is_healthy : RemoteInfo → Bool
is_healthy info = elim info.status [ healthy ↦ true | unhealthy ↦ false | unknown ↦ false ]

-- `less` of the two calls of `sort.Slice`, as "not greater": the lower priority first, then the name. The
-- order of names is that of strings.
module _ ⦃names : Ordered String⦄ where
  abbrev pub remote_le : RemoteInfo → RemoteInfo → Bool
  remote_le a b =
      if eqb_ℤ a.priority b.priority then names.le a.name b.name else ltb_ℤ a.priority b.priority

  pub remote_le-total : (a b : RemoteInfo) → remote_le a b ≡ false → remote_le b a ≡ true
  remote_le-total a b h = ground (arith, names.total a.name b.name)

  pub remote_le_trans :
      (a b c : RemoteInfo) → remote_le a b ≡ true → remote_le b c ≡ true → remote_le a c ≡ true
  remote_le_trans a b c h k = ground (arith, names.trans a.name b.name c.name)

  instance abbrev pub remote_ordered : Ordered RemoteInfo
  remote_ordered = record { le = remote_le; total = remote_le-total; trans = remote_le_trans }

module _ {T S : Type 0} (can_use : T → S → Bool × S) where
  -- The loop of `getChainStatus`, which ends at the first remote that can be used.
  unfoldable pub any_usable : List (String × T) → S → Health × S
  any_usable [] s = (unhealthy, s)
  any_usable ((name, t) ∷ targets) s =
      let (usable, s1) = can_use t s in
      let rest = any_usable targets s1 in if usable then (healthy, s1) else rest

  unfoldable pub get_chain_status : Bool → List (String × T) → S → Health × S
  unfolding any_usable
  get_chain_status has_cluster targets s =
      let found = any_usable targets s in if has_cluster then found else (unknown, s)

module _ {T S : Type 0} (get_head : T → S → ℕ) (can_use : T → S → Bool × S)
    (get_last_error : T → S → String) (has_look_back : T → Bool) where
  abbrev pub info_of : Remote → String → T → ℕ → Bool → S → S → RemoteInfo
  info_of cfg name t head usable before after = record {
    name = name;
    status = status_of usable;
    latest_block = get_head t before;
    blocks_behind = blocks_behind head (get_head t before);
    last_error = get_last_error t after;
    priority = cfg.priority;
    max_block_lookback = if has_look_back t then cfg.max_block_lookback else pos 0;
  }

  abbrev pub with_info :
      Option Remote → String → T → ℕ → S → (S → List RemoteInfo × S) → List RemoteInfo × S
  with_info none name t head s rest = rest s
  with_info (some cfg) name t head s rest =
      let (usable, s1) = can_use t s in
      let (infos, s2) = rest s1 in (info_of cfg name t head usable s s1 ∷ infos, s2)

  -- The loop over the targets, which come in any order.
  unfoldable pub read_remotes : List Remote → ℕ → List (String × T) → S → List RemoteInfo × S
  unfolding find_remote
  read_remotes remotes head [] s = ([], s)
  read_remotes remotes head ((name, t) ∷ targets) s =
      with_info (find_remote name remotes) name t head s (read_remotes remotes head targets)

  -- `getRemoteInfos`
  unfoldable pub get_remote_infos :
      ⦃names : Ordered String⦄ → Chain → ℕ → List (String × T) → S → List RemoteInfo × S
  unfolding read_remotes
  get_remote_infos chain head targets s =
      let (infos, s') = read_remotes chain.remotes head targets s in (sort infos, s')

  -- What `getChainInfos` and `handleChainDetail` show of one chain. An error of the head store counts as
  -- the head 0.
  unfoldable pub chain_info :
      ⦃names : Ordered String⦄
      → Chain
      → Result ℕ
      → Bool
      → List (String × T)
      → S
      → (ChainInfo × List RemoteInfo) × S
  unfolding get_remote_infos get_chain_status
  chain_info chain head_block has_cluster targets s =
      let head = or_zero head_block in
      let (remotes, s1) = get_remote_infos chain head targets s in
      let (status, s2) = get_chain_status can_use has_cluster targets s1 in
      (
        (
          record {
            name = chain.name;
            chain_id = to_uint64 chain.id;
            head_block = head;
            status = status;
            remote_count = length remotes;
            healthy_count = count is_healthy remotes;
            unhealthy_count = pos (length remotes) -ℤ pos (count is_healthy remotes);
          },
          remotes,
        ),
        s2,
      )
