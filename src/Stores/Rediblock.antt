-- ===== src/Stores/Rediblock.antt =====
-- svc/node/stores/vennstores/rediblock/module.go: entries for blocks in Redis, and the two scripts that run there.
pub mod Kept
pub mod Reorg
pub mod RoundTrip
use Prim.Native.Nat.{max, min}
use mathlib.Core.Logic.{ite}
use venn.Prelude.{
  ℕ, zero, suc, ◌+◌, ◌-◌, ◌*◌, ◌/◌, ◌%◌, ◌^◌, String, Bool, true, false, Option, none, some, List,
  [], ◌∷◌, ltb, ◌==◌, ◌&&◌, str_eq, if◌then◌else◌,
}
use venn.Rpc.{Json, Error, plain, Chain, Hexutil, Result, ok, err}
use venn.Middlewares.LookBack.{sub_uint64}
use venn.Stores.Blocks.{EntryType, block_header, logs, receipts, Entry, Query, range, hash}

-- What a command of Redis comes to: it runs, it does not, or it runs and its answer is lost.
pub data Outcome : Type 0 where
  done : Outcome
  refused lost : Error → Outcome

abbrev pub redis_nil : Error
redis_nil = plain "redis: nil"

-- The outcomes of the commands of one `Put`. Neither of them answers `redis.Nil`.
pub record Outcomes : Type 0 where
  pub check : Outcome
  pub list : Outcome
  pub delete : Outcome
  pub add : Outcome

-- A value in Redis with the seconds that SETEX gave it.
pub record Expiring (V : Type 0) : Type 0 where
  pub seconds : ℕ
  pub value : V

-- The number of the type in a key.
abbrev pub code : EntryType → ℕ
code block_header = 0
code logs = 1
code receipts = 2

-- One family of keys: those of a type and a block.
abbrev pub Family : Type 0 → Type 0 → Type 0
Family K V = EntryType → K → Option (Expiring V)

abbrev pub setex : {K V : Type 0} → (K → K → Bool) → EntryType → K → ℕ → V → Family K V → Family K V
setex same typ k exp v f t j =
    if (code t == code typ) && same k j then some (record { seconds = exp; value = v }) else f t j

-- `math.Max(1, chain.BlockTimeSeconds)`, cut off
abbrev pub block_seconds : Chain → ℕ
block_seconds chain = max 1 (chain.block_time / 10 ^ 9)

module _ (hex : Hexutil) (dec : Discrete hex.Hash) where
  abbrev pub same_hash : hex.Hash → hex.Hash → Bool
  same_hash h k = ite (dec h k) true false

  abbrev pub same_number : ℕ → ℕ → Bool
  same_number n m = n == m

  -- What Redis holds in the namespace of one chain. Numbers above 2^53, which Lua rounds, are left out.
  pub record Keys : Type 0 where
    pub head : Option ℕ
    pub hash_value : Family hex.Hash Json
    pub hash_number : Family hex.Hash ℕ
    pub number_value : Family ℕ Json
    pub number_hash : Family ℕ String

  abbrev pub empty_keys : Keys
  empty_keys = record {
    head = none;
    hash_value = λ t h. none;
    hash_number = λ t h. none;
    number_value = λ t n. none;
    number_hash = λ t n. none;
  }

  abbrev pub cons_entry :
      Option (Expiring Json)
      → Option (Expiring String)
      → ℕ
      → Result (List (Entry hex.Hash))
      → Result (List (Entry hex.Hash))
  cons_entry (some v) (some h) i (ok entries) = ok (
      record {
        block_hash = hex.hex_to_hash h.value;
        block_number = i;
        parent_hash = none;
        value = v.value;
      }
      ∷ entries)
  cons_entry (some v) (some h) i (err e) = err e
  cons_entry _ _ i rest = err redis_nil

  -- The loops of `Get` over a range, with `m` rounds left: the pipeline answers `redis.Nil` if any key is
  -- missing. An end of 2^64 - 1, which a counter of 64 bits never passes, is left out.
  unfoldable pub read_range : EntryType → ℕ → ℕ → Keys → Result (List (Entry hex.Hash))
  read_range typ zero i k = ok []
  read_range typ (suc m) i k =
      cons_entry (k.number_value typ i) (k.number_hash typ i) i (read_range typ m (suc i) k)

  abbrev pub hash_entry :
      hex.Hash → Option (Expiring Json) → Option (Expiring ℕ) → Result (List (Entry hex.Hash))
  hash_entry h (some v) (some n) =
      ok (
        record { block_hash = h; block_number = n.value; parent_hash = none; value = v.value } ∷ [])
  hash_entry h _ _ = err redis_nil

  abbrev pub unless_failed :
      Outcome → Result (List (Entry hex.Hash)) → Result (List (Entry hex.Hash))
  unless_failed done r = r
  unless_failed (refused e) r = err e
  unless_failed (lost e) r = err e

  -- `Get`, with the outcome of its pipeline. `fits` says whether a slice of that many can be made; `none` is the
  -- panic if it cannot. The test for a negative difference of unsigned numbers never holds.
  unfoldable pub get :
      (ℕ → Bool)
      → Outcome
      → EntryType
      → Query hex.Hash
      → Keys
      → Option (Result (List (Entry hex.Hash)))
  unfolding read_range
  get fits outcome typ (hash h) k =
      some (unless_failed outcome (hash_entry h (k.hash_value typ h) (k.hash_number typ h)))
  get fits outcome typ (range start end) k =
      let span = sub_uint64 end start + 1 in
      let found = unless_failed outcome (read_range typ (suc end - start) start k) in
      if fits ((span * 2) % 2 ^ 64) && fits (span % 2 ^ 64) then some found else none

  -- `checkReorgScript`: the first hash in Redis that is not the expected one.
  unfoldable pub check_reorg : EntryType → List (ℕ × String) → Keys → String
  check_reorg typ [] k = ""
  check_reorg typ ((number, expected) ∷ rest) k =
      let other = check_reorg typ rest k in
      elim (k.number_hash typ number) [
        | none ↦ other
        | some actual ↦ if str_eq actual.value expected then other else actual.value
      ]

  -- `reorgKeys` with `reorgValues`
  unfoldable pub parents : List (Entry hex.Hash) → List (ℕ × String)
  parents [] = []
  parents (entry ∷ entries) =
      let rest = parents entries in
      elim entry.parent_hash [
        | none ↦ rest
        | some parent ↦ (sub_uint64 entry.block_number 1, hex.encode_hash parent) ∷ rest
      ]

  abbrev pub or_zero : Option ℕ → ℕ
  or_zero none = 0
  or_zero (some n) = n

  -- The seconds that the script gives a block.
  abbrev pub expiry : ℕ → ℕ → ℕ → ℕ
  expiry seconds head number = min 3600 (max 1 ((head - number + 1) * seconds))

  -- One round of `addEntriesScript`, in which `head` is that in Redis or zero.
  unfoldable pub add_entry : ℕ → EntryType → Entry hex.Hash → Keys → Keys
  add_entry seconds typ entry k =
      let number = entry.block_number in
      let above = ltb (or_zero k.head) number in
      let exp = expiry seconds (max (or_zero k.head) number) number in
      record {
        head = if above then some number else k.head;
        hash_value = setex same_hash typ entry.block_hash exp entry.value k.hash_value;
        hash_number = setex same_hash typ entry.block_hash exp number k.hash_number;
        number_value = setex same_number typ number exp entry.value k.number_value;
        number_hash =
            setex same_number typ number exp (hex.encode_hash entry.block_hash) k.number_hash;
      }

  -- `addEntriesScript`
  unfoldable pub add_entries : ℕ → EntryType → List (Entry hex.Hash) → Keys → Keys
  unfolding add_entry
  add_entries seconds typ [] k = k
  add_entries seconds typ (entry ∷ entries) k =
      add_entries seconds typ entries (add_entry seconds typ entry k)

  abbrev pub command : Outcome → (Keys → Keys) → Keys → Option Error × Keys
  command done f k = (none, f k)
  command (refused e) f k = (some e, k)
  command (lost e) f k = (some e, f k)

  abbrev pub drop_numbers : Keys → Keys
  drop_numbers k = record k { number_value = λ t n. none; number_hash = λ t n. none }

  -- `reorg`, with the outcomes of KEYS and DEL
  unfoldable pub reorg : Outcome → Outcome → Keys → Option Error × Keys
  reorg listed deleted k =
      let (e, k') = command listed (λ k. k) k in
      elim e [ some x ↦ (some x, k') | none ↦ command deleted drop_numbers k' ]

  abbrev pub failure : Outcome → Option Error
  failure done = none
  failure (refused e) = some e
  failure (lost e) = some e

  -- The check for reorgs in `Put`.
  unfoldable pub check_parents :
      Outcomes → EntryType → List (ℕ × String) → Keys → Option Error × Keys
  unfolding check_reorg reorg
  check_parents o typ [] k = (none, k)
  check_parents o typ (parent ∷ rest) k =
      let forget = reorg o.list o.delete k in
      elim (failure o.check) [
        | some e ↦ (some e, k)
        | none ↦ if str_eq (check_reorg typ (parent ∷ rest) k) "" then (none, k) else forget
      ]

  -- `Put`
  unfoldable pub put :
      Outcomes → Chain → EntryType → List (Entry hex.Hash) → Keys → Option Error × Keys
  unfolding check_parents parents add_entries
  put o chain typ entries k =
      let (e, k') = check_parents o typ (parents entries) k in
      elim e [
        | some x ↦ (some x, k')
        | none ↦ command o.add (add_entries (block_seconds chain) typ entries) k'
      ]
