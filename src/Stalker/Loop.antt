-- ===== src/Stalker/Loop.antt =====
-- The loops of svc/node/atoms/stalker/stalker.go: the leader stalks each chain in a goroutine of its own,
-- and all share the delay trackers that `New` makes.
use venn.Prelude.{
  ℕ, zero, suc, String, Bool, true, false, ◌&&◌, ◌||◌, Option, none, some, List, [], ◌∷◌, get_elem?,
  if◌then◌else◌,
}
use venn.Prelude.Int.{ℤ, pos}
use venn.Prelude.Duration.{Duration}
use venn.Prelude.Maps.{lookup, insert}
use venn.Rpc.{Chain, Handler, Hexutil, Error}
use venn.Stores.Head.{Store}
use venn.Stalker.Delay.{DelayTracker, new_delay_tracker}
use venn.Stalker.{tick}

abbrev pub Trackers : Type 0
Trackers = List (String × DelayTracker)

-- The trackers that `New` makes.
unfoldable pub new_trackers : List Chain → Trackers
unfolding new_delay_tracker
new_trackers [] = []
new_trackers (c ∷ chains) =
    insert c.name (new_delay_tracker 128 (pos 0) (pos c.block_time)) (new_trackers chains)

module _ {S : Type 0} where
  -- What the leader starts: the chains that are to be stalked and have a cluster.
  abbrev pub with_cluster :
      Chain → Option (Handler S) → List (Chain × Handler S) → List (Chain × Handler S)
  with_cluster c none rest = rest
  with_cluster c (some cluster) rest = (c, cluster) ∷ rest

  unfoldable pub stalked : List (String × Handler S) → List Chain → List (Chain × Handler S)
  stalked remotes [] = []
  stalked remotes (c ∷ chains) =
      let rest = stalked remotes chains in
      if c.parsed_stalk then with_cluster c (lookup c.name remotes) rest else rest

-- The next step of the goroutines: which of those that run ticks, what the rest of the program has done
-- before, and whether the context is done after an error or during the wait.
pub record Event (S : Type 0) : Type 0 where
  pub which : ℕ
  pub meanwhile : S → S
  pub done_on_error : Bool
  pub done_waiting : Bool

abbrev pub is_error : Option Error → Bool
is_error none = false
is_error (some e) = true

abbrev pub without : {A : Type 0} → ℕ → List A → List A
without n [] = []
without zero (x ∷ xs) = xs
without (suc n) (x ∷ xs) = x ∷ without n xs

-- The running goroutines, the trackers and the state.
abbrev pub Running : Type 0 → Type 0
Running S = List (Chain × Handler S) × (Trackers × S)

module _ {S : Type 0} where
  -- `stalk` after a tick: it returns when the context is done.
  abbrev pub after_tick :
      Event S
      → List (Chain × Handler S)
      → Option ((Duration × Option Error) × (Trackers × S))
      → Option (Running S)
  after_tick e gs none = none
  after_tick e gs (some ((wait, error), rest)) = some (
    (if (is_error error && e.done_on_error) || e.done_waiting then without e.which gs else gs),
    rest,
  )

  abbrev pub and_run : Option (Running S) → (Running S → Option (Running S)) → Option (Running S)
  and_run none f = none
  and_run (some r) f = f r

module _ (hex : Hexutil) {S : Type 0} (clock : S → ℤ) (store : Store S) where
  abbrev pub on_which : Event S → Option (Chain × Handler S) → Running S → Option (Running S)
  on_which e none r = some r
  on_which e (some (c, cluster)) (gs, (dt, s)) =
      after_tick e gs (tick hex clock store cluster c dt (e.meanwhile s))

  -- Any interleaving of the goroutines; `none` is a panic.
  unfoldable pub run : List (Event S) → Running S → Option (Running S)
  run [] r = some r
  run (e ∷ es) r = and_run (on_which e (get_elem? r.0 e.which) r) (run es)
