-- ===== src/Callcenter/Cluster.antt =====
-- lib/callcenter/cluster.go, over any type `R` of remotes. `slices.BinarySearch` on a sorted slice
-- gives the first position whose element is not below the target.
pub mod Order
pub mod Added
pub mod Failover
use venn.Prelude.{
  ℕ, zero, suc, ◌+◌, ◌-◌, ◌%◌, ◌<◌, ◌≤◌, ◌≡◌, refl, Bool, true, false, ◌&&◌, ◌||◌, not, Option,
  none, some, List, [], ◌∷◌, ◌++◌, arith, ltb, leb, ◌==◌, length, get_elem?, if◌then◌else◌,
}
use venn.Prelude.Int.{ℤ, eqb_ℤ, leb_ℤ, ltb_ℤ}
use venn.Rpc.{Error, Request, Reply, Value, Handler, failed, sent, fresh, intercept}
use venn.Util.Errors.{is_user_error}

pub record Priority {ℓ} (R : Type ℓ) : Type ℓ where
  pub priority : ℤ
  pub remotes : List R
  -- the requests that have been rotated through this priority, below 2 ^ 63
  pub round : ℕ

pub record Cluster {ℓ} (R : Type ℓ) : Type ℓ where
  pub priorities : List (Priority R)
  pub remotes : List R
  pub remote_priority : List ℤ

module _ {ℓ} {R : Type ℓ} where
  unfoldable pub new_cluster : Cluster R
  new_cluster = record { priorities = []; remotes = []; remote_priority = [] }

  -- The first insertion of `Add`: `remotes` and `remotePriority` side by side, at the position that
  -- the search finds in the second.
  unfoldable pub insert_sorted : ℤ → R → List ℤ → List R → List ℤ × List R
  insert_sorted p r [] rs = (p ∷ [], rs ++ r ∷ [])
  insert_sorted p r (q ∷ qs) [] = (p ∷ q ∷ qs, r ∷ [])
  insert_sorted p r (q ∷ qs) (s ∷ rs) =
      let (qs', rs') = insert_sorted p r qs rs in
      if ltb_ℤ q p then (q ∷ qs', s ∷ rs') else (p ∷ q ∷ qs, r ∷ s ∷ rs)

  -- The second: into the group of the priority, or a new group at its position.
  unfoldable pub insert_group : ℤ → R → List (Priority R) → List (Priority R)
  insert_group p r [] = record { priority = p; remotes = r ∷ []; round = 0 } ∷ []
  insert_group p r (g ∷ gs) =
      let rest = insert_group p r gs in
      if ltb_ℤ g.priority p
      then g ∷ rest
      else if eqb_ℤ g.priority p
      then record g { remotes = g.remotes ++ r ∷ [] } ∷ gs
      else record { priority = p; remotes = r ∷ []; round = 0 } ∷ g ∷ gs

  unfoldable pub add : ℤ → R → Cluster R → Cluster R
  unfolding insert_sorted insert_group
  add p r c =
      let (remote_priority, remotes) = insert_sorted p r c.remote_priority c.remotes in
      record {
        priorities = insert_group p r c.priorities;
        remotes = remotes;
        remote_priority = remote_priority;
      }

-- What one reply means to the loop: the reply to send, or `none` to try the next remote.
unfoldable pub verdict : Bool → Reply → Option Reply
verdict is_last icept = elim icept.error [
  | some e ↦
      if is_user_error (some e)
      then some (failed e)
      else if not is_last
      then none
      else if e.head_old
      then some (sent icept.result)
      else some (failed e)
  | none ↦ elim icept.result [ Value.nothing ↦ none | v ↦ some (sent v) ]
]

abbrev pub is_empty {ℓ} : {A : Type ℓ} → List A → Bool
is_empty [] = true
is_empty (x ∷ xs) = false

-- `p.round.Add(1)`, only for a priority with a choice.
abbrev pub advance {ℓ} : {R : Type ℓ} → Priority R → Priority R
advance p = if ltb 1 (length p.remotes) then record p { round = p.round + 1 } else p

abbrev pub start {ℓ} : {R : Type ℓ} → Priority R → ℕ
start p = if ltb 1 (length p.remotes) then p.round + 1 else 0

-- Where the inner loop leaves the handler: with a reply sent, or with all remotes tried.
pub data Progress {ℓ} (S : Type ℓ) : Type ℓ where
  done : Reply → S → Progress S
  going : Reply → S → Progress S

module _ {ℓ κ} {R : Type ℓ} {S : Type κ} (call : R → Handler S) (r : Request) where
  -- The inner loop, with `m` rounds left and `j` as it stands before `j++`. The index is in range,
  -- so the case of no remote does not arise.
  unfoldable pub try_group : Bool → List R → ℕ → ℕ → Reply → S → Progress S
  try_group last rs zero j icept s = going icept s
  try_group last rs (suc m) j icept s = elim (get_elem? rs (suc j % length rs)) [
    | none ↦ going icept s
    | some remote ↦
        let (sends, s') = call remote r s in
        let icept' = intercept icept sends in
        elim (verdict (last && m == 0) icept') [
          | some reply ↦ done reply s'
          | none ↦ try_group last rs m (suc j) icept' s'
        ]
  ]

  -- The outer loop: the replies, the priorities with their counters, and the remotes' state. After
  -- a priority it returns, or goes on with the later ones.
  abbrev pub Outcome : Type (ℓ ⊔ κ)
  Outcome = List Reply × List (Priority R) × S

  abbrev pub after_group :
      Priority R → List (Priority R) → (Reply → S → Outcome) → Progress S → Outcome
  after_group p ps rest (done reply s) = (reply ∷ [], advance p ∷ ps, s)
  after_group p ps rest (going icept s) =
      let (replies, ps', s') = rest icept s in (replies, advance p ∷ ps', s')

  unfoldable pub try_priorities : List (Priority R) → Reply → S → Outcome
  unfolding try_group
  try_priorities [] icept s = ([], [], s)
  try_priorities (p ∷ ps) icept s =
      after_group p ps (try_priorities ps)
        (try_group (is_empty ps) p.remotes (length p.remotes) (start p) icept s)

  unfoldable pub serve : Cluster R × S → List Reply × (Cluster R × S)
  unfolding try_priorities
  serve (c, s) =
      let (replies, ps, s') = try_priorities c.priorities fresh s in
      (replies, (record c { priorities = ps }, s'))
