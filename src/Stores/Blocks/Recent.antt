-- ===== src/Stores/Blocks/Recent.antt =====
-- lib/stores/blockstore/lru.go: the most recent entries, by hash and by number.
mod Keys
pub mod Sound
use venn.Prelude.{
  ℕ, zero, suc, ◌+◌, ◌-◌, ◌≡◌, ◌⊎◌, String, Bool, true, false, not, Option, none, some, List, [],
  ◌∷◌, ltb, if◌then◌else◌,
}
use mathlib.Core.Logic.{ite}
use venn.Rpc.{Error, plain, Chain, Result, ok, err}
use venn.Middlewares.LookBack.{sub_uint64}
use venn.Stores.Blocks.{EntryType, Entry, Query, range, hash}

-- What the store relies on in simplelru: an entry that is found was added under its key, and not purged
-- since. `peek` is what `Get` finds, without the change of what counts as recent.
pub record Lru (K V : Type 0) : Type 1 where
  pub Cache : Type 0
  pub init : Cache
  pub get : K → Cache → Option V × Cache
  pub add : K → V → Cache → Cache
  pub purge : Cache → Cache
  pub peek : K → Cache → Option V
  pub peek-init : (k : K) → peek k init ≡ none
  pub get-peek : (k : K) (c : Cache) → (get k c).0 ≡ peek k c
  pub peek-get : (j k : K) (c : Cache) → peek j (get k c).1 ≡ peek j c
  pub peek-add :
      (j k : K) (v w : V) (c : Cache)
      → peek j (add k v c) ≡ some w
      → ((j ≡ k) × (w ≡ v)) ⊎ (peek j c ≡ some w)
  pub peek-purge : (k : K) (c : Cache) → peek k (purge c) ≡ none

pub record NumberKey : Type 0 where
  pub type : EntryType
  pub block_number : ℕ
  pub chain : String

pub record HashKey (H : Type 0) : Type 0 where
  pub type : EntryType
  pub block_hash : H
  pub chain : String

abbrev pub not_found : Error
not_found = plain "not found"

module _ {H : Type 0} (dec : Discrete H) (hashes : Lru (HashKey H) (Entry H))
    (numbers : Lru NumberKey (Entry H)) where
  pub record LruStore : Type 0 where
    pub by_hash : hashes.Cache
    pub by_number : numbers.Cache

  unfoldable pub new_lru_store : LruStore
  new_lru_store = record { by_hash = hashes.init; by_number = numbers.init }

  abbrev pub number_key : Chain → EntryType → ℕ → NumberKey
  number_key chain typ n = record { type = typ; block_number = n; chain = chain.name }

  abbrev pub hash_key : Chain → EntryType → H → HashKey H
  hash_key chain typ h = record { type = typ; block_hash = h; chain = chain.name }

  abbrev pub cons_entry : Entry H → Result (List (Entry H)) → Result (List (Entry H))
  cons_entry e (err x) = err x
  cons_entry e (ok es) = ok (e ∷ es)

  -- The loop over a range, with `m` rounds left. An end of 2^64 - 1, which a counter of 64 bits never passes,
  -- is left out. A round goes on with what it has found.
  abbrev pub on_found :
      Option (Entry H)
      → numbers.Cache
      → (numbers.Cache → Result (List (Entry H)) × numbers.Cache)
      → Result (List (Entry H)) × numbers.Cache
  on_found none c rest = (err not_found, c)
  on_found (some e) c rest = let (r, c') = rest c in (cons_entry e r, c')

  unfoldable pub scan :
      Chain → EntryType → ℕ → ℕ → numbers.Cache → Result (List (Entry H)) × numbers.Cache
  scan chain typ zero i c = (ok [], c)
  scan chain typ (suc m) i c =
      let (found, c') = numbers.get (number_key chain typ i) c in
      on_found found c' (scan chain typ m (suc i))

  abbrev pub one : Option (Entry H) → Result (List (Entry H))
  one none = err not_found
  one (some e) = ok (e ∷ [])

  -- `Get`; `none` is the panic of `make` for a capacity that `fits` refuses.
  unfoldable pub get :
      (ℕ → Bool)
      → Chain
      → EntryType
      → Query H
      → LruStore
      → Option (Result (List (Entry H)) × LruStore)
  unfolding scan
  get fits chain typ (hash h) st =
      let (found, c) = hashes.get (hash_key chain typ h) st.by_hash in
      some (one found, record st { by_hash = c })
  get fits chain typ (range start end) st =
      let (r, c) = scan chain typ (suc end - start) start st.by_number in
      if fits (sub_uint64 (suc end) start) then some (r, record st { by_number = c }) else none

  -- The chain was reorganised: the block before has another hash than the entry's parent.
  abbrev pub forks : Option (Entry H) → H → Bool
  forks none parent = false
  forks (some prev) parent = ite (dec prev.block_hash parent) false true

  abbrev pub purged : Bool → numbers.Cache → numbers.Cache
  purged true c = numbers.purge c
  purged false c = c

  unfoldable pub check_parent : Chain → EntryType → ℕ → Option H → numbers.Cache → numbers.Cache
  check_parent chain typ number none c = c
  check_parent chain typ number (some parent) c =
      let (prev, c') = numbers.get (number_key chain typ (sub_uint64 number 1)) c in
      purged (forks prev parent) c'

  unfoldable pub put_entry : Chain → EntryType → Entry H → LruStore → LruStore
  unfolding check_parent
  put_entry chain typ entry st = record {
    by_hash = hashes.add (hash_key chain typ entry.block_hash) entry st.by_hash;
    by_number =
        numbers.add (number_key chain typ entry.block_number) entry
          (check_parent chain typ entry.block_number entry.parent_hash st.by_number);
  }

  unfoldable pub put : Chain → EntryType → List (Entry H) → LruStore → LruStore
  unfolding put_entry
  put chain typ [] st = st
  put chain typ (entry ∷ entries) st = put chain typ entries (put_entry chain typ entry st)
