-- ===== src/Election/Redilock.antt =====
-- lib/election/redsync.go: leadership by a lock and a key in Redis, and the leases that hang on it.
use Prim.Native.String.{◌++◌ as ◌⧺◌}
use mathlib.Core.Logic.{ite}
use venn.Prelude.{
  ℕ, zero, suc, String, Bool, true, false, Option, none, some, List, [], ◌∷◌, ◌++◌, ◌==◌,
  if◌then◌else◌,
}
use venn.Rpc.{Error, Result, ok, err}

-- The commands of Redis and the lock of redsync that the strategy uses, in a program with the state S; U is
-- the type of the members' ids. A time to live is in seconds, and 0 is none.
pub record Redis (U S : Type 0) : Type 0 where
  pub exists : String → S → Result ℕ × S
  pub get : String → S → Result String × S
  pub set : String → String → ℕ → S → Option Error × S
  pub del : String → S → Option Error × S
  pub add_member : String → String → S → Option Error × S
  pub try_lock : S → Bool × S
  pub unlock : S → S
  pub extend : S → S
  -- `uuid.Parse` and `String`
  pub parse : String → Option U
  pub show : U → String

-- A `spawnedCtx`: its context was not sent yet, or it was and can be cancelled.
pub data Spawned : Type 0 where
  waiting held : ℕ → Spawned

-- What `updateSubs` does to a lease: send its context, or cancel it with ErrLostLeadership.
pub data Effect : Type 0 where
  grant lose : ℕ → Effect

abbrev pub keep : Spawned → List Spawned × List Effect → List Spawned × List Effect
keep v (ctxs, effects) = (v ∷ ctxs, effects)

abbrev pub tell : Effect → List Spawned × List Effect → List Spawned × List Effect
tell e (ctxs, effects) = (ctxs, e ∷ effects)

-- `updateSubs`
unfoldable pub update_subs : Bool → List Spawned → List Spawned × List Effect
update_subs leader [] = ([], [])
update_subs true (waiting i ∷ ctxs) = tell (grant i) (keep (held i) (update_subs true ctxs))
update_subs true (held i ∷ ctxs) = keep (held i) (update_subs true ctxs)
update_subs false (waiting i ∷ ctxs) = keep (waiting i) (update_subs false ctxs)
update_subs false (held i ∷ ctxs) = tell (lose i) (update_subs false ctxs)

-- `next` numbers the leases, and `effects` has what became of them, in order.
pub record Redilock : Type 0 where
  pub is_leader : Bool
  pub ctxs : List Spawned
  pub next : ℕ
  pub effects : List Effect

-- `NewRedilockStrategy`
abbrev pub new_redilock : Redilock
new_redilock = record { is_leader = false; ctxs = []; next = 0; effects = [] }

unfoldable pub refresh : Redilock → Redilock
unfolding update_subs
refresh m =
    let (ctxs, effects) = update_subs m.is_leader m.ctxs in
    record m { ctxs = ctxs; effects = m.effects ++ effects }

-- `AcquireLease`, whose `updateSubs` in the background is a step of its own.
unfoldable pub acquire_lease : Redilock → Redilock
acquire_lease m = record m { ctxs = m.ctxs ++ (waiting m.next ∷ []); next = suc m.next }

module _ {U S : Type 0} (redis : Redis U S) (same : Discrete U) (nil_id id : U)
    (namespace : String) where
  abbrev pub leader_key : String
  leader_key = "venn:" ⧺ namespace ⧺ ":election:leader"

  abbrev pub health_key : U → String
  health_key u = "venn:" ⧺ namespace ⧺ ":election:health:" ⧺ redis.show u

  unfoldable pub attempt_promotion : S → Bool × S
  attempt_promotion s =
      let (locked, s1) = redis.try_lock s in
      let (refused, s2) = redis.set leader_key (redis.show id) 0 s1 in
      if locked
      then elim refused [ some e ↦ (false, redis.unlock s2) | none ↦ (true, s2) ]
      else (false, s1)

  -- What one round of the loop in `discoverLeader` finds: `ok none` goes round again.
  abbrev pub promoted : Bool × S → Result (Option U) × S
  promoted (true, s) = (ok (some id), s)
  promoted (false, s) = (ok none, s)

  abbrev pub on_leader : Result String → S → Result (Option U) × S
  on_leader (err e) s = (err e, s)
  on_leader (ok text) s = elim (redis.parse text) [
    | none ↦ (ok none, (redis.del leader_key s).1)
    | some u ↦ (ok (some u), s)
  ]

  abbrev pub on_exists : Result ℕ → S → Result (Option U) × S
  on_exists (err e) s = (err e, s)
  on_exists (ok n) s =
      let (found, s') = redis.get leader_key s in
      let set = promoted (attempt_promotion s) in
      let read = on_leader found s' in if n == 0 then set else if n == 1 then read else (ok none, s)

  unfoldable pub discover_once : S → Result (Option U) × S
  unfolding attempt_promotion
  discover_once s = let (n, s') = redis.exists leader_key s in on_exists n s'

  abbrev pub again : Result (Option U) × S → (S → Option (Result U × S)) → Option (Result U × S)
  again (err e, s) more = some (err e, s)
  again (ok (some u), s) more = some (ok u, s)
  again (ok none, s) more = more s

  -- `discoverLeader`; `none` is a loop that has not ended after these rounds.
  unfoldable pub discover_leader : ℕ → S → Option (Result U × S)
  unfolding discover_once
  discover_leader zero s = none
  discover_leader (suc rounds) s = again (discover_once s) (discover_leader rounds)

  unfoldable pub broadcast_health : S → Option Error × S
  broadcast_health s = redis.set (health_key id) "OK" 5 s

  unfoldable pub overthrow : S → Option Error × S
  overthrow s =
      let (refused, s1) =
        redis.add_member ("venn:" ⧺ namespace ⧺ ":election:outlaws") (redis.show id) s in
      let deleted = redis.del leader_key s1 in
      elim refused [ some e ↦ (some e, s1) | none ↦ deleted ]

  abbrev pub on_health : Result ℕ → S → Option Error × S
  on_health (err e) s = (some e, s)
  on_health (ok n) s = let thrown = overthrow s in if n == 1 then (none, s) else thrown

  -- `mutiny`; the loop uses nothing but its error.
  unfoldable pub mutiny : U → S → Option Error × S
  unfolding overthrow
  mutiny leader s = let (n, s') = redis.exists (health_key leader) s in on_health n s'

  unfoldable pub is_self : U → Bool
  is_self u = ite (same u id) true false

  abbrev pub is_nil : U → Bool
  is_nil u = ite (same u nil_id) true false

  -- The rest of `loop` once the leader is known.
  unfoldable pub follow_leader : U → Redilock → S → Option Error × (Redilock × S)
  unfolding broadcast_health mutiny refresh is_self
  follow_leader leader m s =
      let m' = refresh (record m { is_leader = is_self leader }) in
      let beat = broadcast_health (redis.extend s) in
      let (refused, s') = mutiny leader s in
      if is_self leader then (none, (m', beat.1)) else (refused, (m', s'))

  abbrev pub on_discovered :
      Option (Result U × S) → Redilock → Option (Option Error × (Redilock × S))
  on_discovered none m = none
  on_discovered (some (err e, s)) m = some (some e, (m, s))
  on_discovered (some (ok leader, s)) m =
      let known = follow_leader leader m s in
      if is_nil leader then some (none, (m, s)) else some known

  -- `loop`
  unfoldable pub loop : ℕ → Redilock → S → Option (Option Error × (Redilock × S))
  unfolding discover_leader follow_leader
  loop rounds m s =
      let (refused, s') = broadcast_health s in
      let next = on_discovered (discover_leader rounds s') m in
      elim refused [ some e ↦ some (some e, (m, s')) | none ↦ next ]
