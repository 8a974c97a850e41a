-- ===== src/Election.antt =====
-- svc/node/atoms/election/module.go: `RunWithLease` over a strategy, and which strategy is taken. The child
-- Redilock is lib/election/redsync.go.
pub mod Redilock
pub mod Stages
pub mod Leases
pub mod Exclusive
use venn.Prelude.{String, Bool, true, false, List, [], ◌∷◌, ◌++◌, ◌||◌, if◌then◌else◌, str_eq}
use venn.Rpc.{Result, ok, err, plain}

pub data Strategy : Type 0 where
  redilock always_leader : Strategy

-- `New`: a strategy that is not given depends on whether there is a Redis.
unfoldable pub choose : String → Bool → Result Strategy
choose name has_redis =
    let given = if str_eq name "" then (if has_redis then "redis" else "alwaysleader") else name in
    if str_eq given "redilock" || str_eq given "redsync" || str_eq given "redis"
    then ok redilock
    else if str_eq given "alwaysleader"
    then ok always_leader
    else err (plain "invalid election strategy")

-- How the lease of one turn comes: at once, only later, or not before the context is done, which the first
-- `select` or the one beside the follower sees.
pub data Arrival : Type 0 where
  at_once later done_at_once done_later : Arrival

-- How a lease ends: by lost leadership, by a cancelled context, or otherwise.
pub data Ending : Type 0 where
  lost canceled other : Ending

-- What is done: the follower's function is started and its context cancelled, and so for the leader's.
pub data Action : Type 0 where
  follow unfollow lead unlead : Action

-- The end of one turn: a lost leadership begins the next one.
abbrev pub then_if_lost : Ending → List Action → List Action
then_if_lost lost rest = lead ∷ unlead ∷ rest
then_if_lost canceled rest = lead ∷ unlead ∷ []
then_if_lost other rest = lead ∷ unlead ∷ []

-- `RunWithLease`, over what the turns of its loop meet.
unfoldable pub run_with_lease : List (Arrival × Ending) → List Action
run_with_lease [] = []
run_with_lease ((done_at_once, e) ∷ turns) = []
run_with_lease ((at_once, e) ∷ turns) = then_if_lost e (run_with_lease turns)
run_with_lease ((done_later, e) ∷ turns) = follow ∷ unfollow ∷ []
run_with_lease ((later, e) ∷ turns) = follow ∷ unfollow ∷ then_if_lost e (run_with_lease turns)
