-- ===== src/Tests/Elections.antt =====
-- The election at concrete inputs, over a Redis with one leader's key.
use venn.Prelude.{
  ℕ, ◌≡◌, refl, String, true, false, Option, none, some, [], ◌∷◌, str_eq, ◌==◌, if◌then◌else◌,
}
use venn.Rpc.{ok}
use venn.Election.{at_once, later, lost, canceled, run_with_lease, follow, unfollow, lead, unlead}
use venn.Election.Exclusive.{IsExclusive, neither, run_with_lease-IsExclusive}
use venn.Election.Redilock.{
  Redis, Redilock, held, grant, lose, new_redilock, acquire_lease, refresh, loop, discover_leader,
  update_subs, mutiny,
}
use venn.Election.Stages.{StageOf}
use venn.Election.Leases.{Reachable, start, step, acquires, loops, Reachable-StageOf}
use native.Mathlib.Decide.{ℕ_discrete}

-- The key of the leader. The lock is free when there is none, and the members are all well.
abbrev server : Redis ℕ (Option String)
server = record {
  exists = λ k s. (ok (elim s [ some v ↦ 1 | none ↦ 0 ]), s);
  get = λ k s. (ok (elim s [ some v ↦ v | none ↦ "" ]), s);
  set = λ k v ttl s. (none, if str_eq v "OK" then s else some v);
  del = λ k s. (none, none);
  add_member = λ k v s. (none, s);
  try_lock = λ s. (true, s);
  unlock = λ s. s;
  extend = λ s. s;
  parse = λ v. if str_eq v "us" then some 1 else some 2;
  show = λ u. if u == 1 then "us" else "them";
}

abbrev asked_once : Redilock
asked_once = acquire_lease new_redilock

abbrev leading : Redilock
leading = record { is_leader = true; ctxs = held 0 ∷ []; next = 1; effects = grant 0 ∷ [] }

abbrev following : Redilock
following = record { is_leader = false; ctxs = []; next = 1; effects = grant 0 ∷ lose 0 ∷ [] }

abbrev Reached : Redilock → Type 0
Reached = Reachable server ℕ_discrete 0 1 "venn"

promoted_run :
    loop server ℕ_discrete 0 1 "venn" 1 asked_once none ≡ some (none, (leading, some "us"))
unfolding ℕ_discrete loop discover_leader acquire_lease refresh update_subs
promoted_run = refl

-- Another member has taken the key over.
demoted_run :
    loop server ℕ_discrete 0 1 "venn" 1 leading (some "them")
    ≡ some (none, (following, some "them"))
unfolding ℕ_discrete loop discover_leader refresh update_subs mutiny
demoted_run = refl

followed : Reached following
followed =
    step (step (step start acquires) (loops 1 none (some "us") none promoted_run))
      (loops 1 (some "them") (some "them") none demoted_run)

Reachable-StageOf_example : StageOf 0 following
Reachable-StageOf_example = Reachable-StageOf server ℕ_discrete 0 1 "venn" 0 followed

turned_run :
    run_with_lease ((later, lost) ∷ (at_once, canceled) ∷ [])
    ≡ follow ∷ unfollow ∷ lead ∷ unlead ∷ lead ∷ unlead ∷ []
unfolding run_with_lease
turned_run = refl

run_with_lease-IsExclusive_example :
    IsExclusive neither (run_with_lease ((later, lost) ∷ (at_once, canceled) ∷ []))
run_with_lease-IsExclusive_example =
    run_with_lease-IsExclusive ((later, lost) ∷ (at_once, canceled) ∷ [])
