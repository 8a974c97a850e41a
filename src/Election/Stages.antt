-- ===== src/Election/Stages.antt =====
-- How far a lease of lib/election/redsync.go has come, and how `updateSubs` and `AcquireLease` move it on.
use venn.Prelude.{
  ℕ, suc, ◌≤◌, ◌<◌, ◌≡◌, ◌≢◌, refl, Bool, true, false, List, [], ◌∷◌, ◌++◌, ◌==◌, if◌then◌else◌,
  ◌⊎◌, inl, inr, arith,
}
use venn.Election.Redilock.{
  Spawned, waiting, held, Effect, grant, lose, update_subs, Redilock, refresh, acquire_lease,
}

abbrev pub number : Spawned → ℕ
number (waiting i) = i
number (held i) = i

abbrev pub told : Effect → ℕ
told (grant i) = i
told (lose i) = i

unfoldable pub ctxs_of : ℕ → List Spawned → List Spawned
ctxs_of i [] = []
ctxs_of i (v ∷ ctxs) = if number v == i then v ∷ ctxs_of i ctxs else ctxs_of i ctxs

unfoldable pub effects_of : ℕ → List Effect → List Effect
effects_of i [] = []
effects_of i (e ∷ effects) = if told e == i then e ∷ effects_of i effects else effects_of i effects

ctxs_of-append : (i : ℕ) (l r : List Spawned) → ctxs_of i (l ++ r) ≡ ctxs_of i l ++ ctxs_of i r
unfolding ctxs_of
ctxs_of-append i [] r = refl
ctxs_of-append i (v ∷ l) r = let rec = ctxs_of-append i l r in ground arith

effects_of-append :
    (i : ℕ) (l r : List Effect) → effects_of i (l ++ r) ≡ effects_of i l ++ effects_of i r
unfolding effects_of
effects_of-append i [] r = refl
effects_of-append i (v ∷ l) r = let rec = effects_of-append i l r in ground arith

ctxs_of-update_subs :
    (i : ℕ) (leader : Bool) (ctxs : List Spawned)
    → ctxs_of i (update_subs leader ctxs).0 ≡ (update_subs leader (ctxs_of i ctxs)).0
unfolding ctxs_of update_subs
ctxs_of-update_subs i leader [] = refl
ctxs_of-update_subs i true (waiting j ∷ ctxs) =
    let rec = ctxs_of-update_subs i true ctxs in ground arith
ctxs_of-update_subs i true (held j ∷ ctxs) =
    let rec = ctxs_of-update_subs i true ctxs in ground arith
ctxs_of-update_subs i false (waiting j ∷ ctxs) =
    let rec = ctxs_of-update_subs i false ctxs in ground arith
ctxs_of-update_subs i false (held j ∷ ctxs) =
    let rec = ctxs_of-update_subs i false ctxs in ground arith

effects_of-update_subs :
    (i : ℕ) (leader : Bool) (ctxs : List Spawned)
    → effects_of i (update_subs leader ctxs).1 ≡ (update_subs leader (ctxs_of i ctxs)).1
unfolding ctxs_of effects_of update_subs
effects_of-update_subs i leader [] = refl
effects_of-update_subs i true (waiting j ∷ ctxs) =
    let rec = effects_of-update_subs i true ctxs in ground arith
effects_of-update_subs i true (held j ∷ ctxs) =
    let rec = effects_of-update_subs i true ctxs in ground arith
effects_of-update_subs i false (waiting j ∷ ctxs) =
    let rec = effects_of-update_subs i false ctxs in ground arith
effects_of-update_subs i false (held j ∷ ctxs) =
    let rec = effects_of-update_subs i false ctxs in ground arith

-- How far the lease i has come: what the list holds of it, and what was done to it, in order.
pub data Stage (i next : ℕ) : List Spawned → List Effect → Type 0 where
  asked : next ≤ i → Stage i next [] []
  waits : i < next → Stage i next (waiting i ∷ []) []
  holds : i < next → Stage i next (held i ∷ []) (grant i ∷ [])
  ended : i < next → Stage i next [] (grant i ∷ lose i ∷ [])

Stage-update_subs :
    {i next : ℕ} {c : List Spawned} {e : List Effect} (leader : Bool)
    → Stage i next c e
    → Stage i next (update_subs leader c).0 (e ++ (update_subs leader c).1)
unfolding update_subs
Stage-update_subs leader (asked h) = asked h
Stage-update_subs true (waits h) = holds h
Stage-update_subs false (waits h) = waits h
Stage-update_subs true (holds h) = holds h
Stage-update_subs false (holds h) = ended h
Stage-update_subs leader (ended h) = ended h

abbrev pub StageOf : ℕ → Redilock → Type 0
StageOf i m = Stage i m.next (ctxs_of i m.ctxs) (effects_of i m.effects)

pub refresh-StageOf : (i : ℕ) (m : Redilock) → StageOf i m → StageOf i (refresh m)
unfolding refresh
refresh-StageOf i m h =
    rw
      (
        ctxs_of-update_subs i m.is_leader m.ctxs,
        effects_of-append i m.effects (update_subs m.is_leader m.ctxs).1,
        effects_of-update_subs i m.is_leader m.ctxs,
      )
      (Stage-update_subs m.is_leader h)

ctxs_of-same : (i : ℕ) → ctxs_of i (waiting i ∷ []) ≡ waiting i ∷ []
unfolding ctxs_of
ctxs_of-same i = ground arith

ctxs_of-other : {i j : ℕ} → i ≢ j → ctxs_of i (waiting j ∷ []) ≡ []
unfolding ctxs_of
ctxs_of-other h = ground arith

reached : {i next : ℕ} → next ≤ i → (next ≡ i) ⊎ (suc next ≤ i)
reached h = ground arith

Stage-next : {i next : ℕ} → next ≤ i → Stage i (suc next) (ctxs_of i (waiting next ∷ [])) []
Stage-next {i} {next} h = elim (reached h) [
  | inl e ↦ rw (e, ctxs_of-same i) (waits (omega arith))
  | inr h' ↦ rw (ctxs_of-other {i = i} {j = next} (λ e. omega arith)) (asked h')
]

Stage-suc :
    {i next : ℕ} {c : List Spawned} {e : List Effect}
    → Stage i next c e
    → Stage i (suc next) (c ++ ctxs_of i (waiting next ∷ [])) e
Stage-suc {i} {next} (asked h) = Stage-next h
Stage-suc {i} {next} (waits h) =
    rw (ctxs_of-other {i = i} {j = next} (λ e. omega arith)) (waits (omega arith))
Stage-suc {i} {next} (holds h) =
    rw (ctxs_of-other {i = i} {j = next} (λ e. omega arith)) (holds (omega arith))
Stage-suc {i} {next} (ended h) =
    rw (ctxs_of-other {i = i} {j = next} (λ e. omega arith)) (ended (omega arith))

pub acquire_lease-StageOf : (i : ℕ) (m : Redilock) → StageOf i m → StageOf i (acquire_lease m)
unfolding acquire_lease
acquire_lease-StageOf i m h = rw (ctxs_of-append i m.ctxs (waiting m.next ∷ [])) (Stage-suc h)
