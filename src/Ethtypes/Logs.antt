-- ===== src/Ethtypes/Logs.antt =====
-- lib/ethtypes/logs.go, over types of addresses and hashes with decidable equality. A set, Go's
-- `map[T]struct{}`, is the list of its members.
pub mod Matching
use venn.Prelude.{
  ℕ, zero, suc, Bool, true, false, not, Option, none, some, List, [], ◌∷◌, ◌++◌, if◌then◌else◌,
}
use mathlib.Core.Logic.{ite}

module _ {A : Type 0} (dec : Discrete A) where
  unfoldable pub has : A → List A → Bool
  has x [] = false
  has x (y ∷ s) = ite (dec y x) true (has x s)

  -- `s[x] = struct{}{}`
  unfoldable pub put : A → List A → List A
  unfolding has
  put x s = if has x s then s else x ∷ s

  -- `for _, v := range xs { s[v] = struct{}{} }`
  unfoldable pub put_all : List A → List A → List A
  unfolding put
  put_all [] s = s
  put_all (x ∷ xs) s = put_all xs (put x s)

abbrev pub is_empty {ℓ} : {A : Type ℓ} → List A → Bool
is_empty [] = true
is_empty (x ∷ xs) = false

pub record LogAddressTopics (A H : Type 0) : Type 0 where
  pub address : A
  pub topics : List H

pub record CompiledFilter (A H : Type 0) : Type 0 where
  pub addresses : List A
  pub topics : List (List H)
  pub addr_map : List A
  pub topic_map : List (List H)

module _ {A H : Type 0} (dec_a : Discrete A) (dec_h : Discrete H) where
  -- The second loop of `CompileFilter`: a set for each position, nil where no topic is given.
  unfoldable pub topic_sets : List (List H) → List (List H)
  topic_sets [] = []
  topic_sets (v ∷ topics) = put_all dec_h v [] ∷ topic_sets topics

  -- `none` is the nil filter.
  unfoldable pub compile_filter : List A → List (List H) → Option (CompiledFilter A H)
  compile_filter [] [] = none
  compile_filter addresses topics = some (record {
    addresses = addresses;
    topics = topics;
    addr_map = put_all dec_a addresses [];
    topic_map = topic_sets topics;
  })

  -- The loop of `Check`, with the topics of the log from the index on.
  unfoldable pub check_topics : List (List H) → List H → Bool
  check_topics [] log_topics = true
  check_topics ([] ∷ sets) [] = check_topics sets []
  check_topics ([] ∷ sets) (t ∷ log_topics) = check_topics sets log_topics
  check_topics ((x ∷ set) ∷ sets) [] = false
  check_topics ((x ∷ set) ∷ sets) (t ∷ log_topics) =
      let rest = check_topics sets log_topics in if not (has dec_h t (x ∷ set)) then false else rest

  unfoldable pub check : Option (CompiledFilter A H) → LogAddressTopics A H → Bool
  check none l = true
  check (some c) l =
      if not (is_empty c.addr_map)
      then (if not (has dec_a l.address c.addr_map)
          then false
          else check_topics c.topic_map l.topics)
      else check_topics c.topic_map l.topics

  -- `CompiledFilter.Filter` over logs seen through their address and topics.
  unfoldable pub filter {ℓ} :
      {L : Type ℓ} → (L → LogAddressTopics A H) → Option (CompiledFilter A H) → List L → List L
  filter view none logs = logs
  filter view (some c) [] = []
  filter view (some c) (v ∷ logs) =
      let rest = filter view (some c) logs in if check (some c) (view v) then v ∷ rest else rest
