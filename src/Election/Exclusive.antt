-- ===== src/Election/Exclusive.antt =====
-- No leader beside a follower in svc/node/atoms/election/module.go.
use venn.Prelude.{◌≡◌, ◌≢◌, refl, Bool, true, false, List, [], ◌∷◌, arith}
use venn.Election.{
  Arrival, at_once, later, done_at_once, done_later, Ending, lost, canceled, other, Action, follow,
  unfollow, lead, unlead, then_if_lost, run_with_lease,
}

-- Whether the follower's function, and whether the leader's, runs under a context that is not cancelled.
pub data Running : Type 0 where
  running : Bool → Bool → Running

abbrev pub both : Running
both = running true true

abbrev pub neither : Running
neither = running false false

abbrev pub after : Running → Action → Running
after (running f l) follow = running true l
after (running f l) unfollow = running false l
after (running f l) lead = running f true
after (running f l) unlead = running f false

-- The two are never both live along the actions, and neither is in the end.
abbrev pub IsExclusive : Running → List Action → Type 0
IsExclusive r [] = r ≡ neither
IsExclusive r (a ∷ actions) = (after r a ≢ both) × IsExclusive (after r a) actions

follower_ne : running true false ≢ both
follower_ne h = ground arith

leader_ne : running false true ≢ both
leader_ne h = ground arith

neither_ne : neither ≢ both
neither_ne h = ground arith

then_if_lost-IsExclusive :
    (e : Ending) (rest : List Action)
    → IsExclusive neither rest
    → IsExclusive neither (then_if_lost e rest)
then_if_lost-IsExclusive lost rest h = (leader_ne, (neither_ne, h))
then_if_lost-IsExclusive canceled rest h = (leader_ne, (neither_ne, refl))
then_if_lost-IsExclusive other rest h = (leader_ne, (neither_ne, refl))

-- The function of the leader and that of the follower never both run under a context that is still
-- live, whatever the leases do: the follower's is cancelled before the leader's starts, and the
-- lease is over before the follower starts again. When RunWithLease has returned, both contexts are
-- cancelled.
pub run_with_lease-IsExclusive :
    (turns : List (Arrival × Ending)) → IsExclusive neither (run_with_lease turns)
unfolding run_with_lease
run_with_lease-IsExclusive [] = refl
run_with_lease-IsExclusive ((done_at_once, e) ∷ turns) = refl
run_with_lease-IsExclusive ((done_later, e) ∷ turns) = (follower_ne, (neither_ne, refl))
run_with_lease-IsExclusive ((at_once, e) ∷ turns) =
    then_if_lost-IsExclusive e (run_with_lease turns) (run_with_lease-IsExclusive turns)
run_with_lease-IsExclusive ((later, e) ∷ turns) = (
  follower_ne,
  (
    neither_ne,
    then_if_lost-IsExclusive e (run_with_lease turns) (run_with_lease-IsExclusive turns),
  ),
)
