-- ===== src/Stores/Blocks.antt =====
-- lib/stores/blockstore: entries for blocks (interface.go), and a store over several others (compound.go).
pub mod Recent
pub mod Layers
use venn.Prelude.{
  ℕ, String, Bool, true, false, Option, none, some, List, [], ◌∷◌, ◌++◌, ltb, if◌then◌else◌,
}
use venn.Rpc.{Json, Error, plain, Chain, Result, ok, err}

pub data EntryType : Type 0 where
  block_header logs receipts : EntryType

pub record Entry (H : Type 0) : Type 0 where
  pub block_hash : H
  pub block_number : ℕ
  pub parent_hash : Option H
  pub value : Json

pub data Query (H : Type 0) : Type 0 where
  range : ℕ → ℕ → Query H
  hash : H → Query H

-- `Store`, for a program with the state S.
pub record BlockStore (H S : Type 0) : Type 0 where
  pub get : Chain → EntryType → Query H → S → Result (List (Entry H)) × S
  pub put : Chain → EntryType → List (Entry H) → S → Option Error × S

-- `q.End < q.Start`
unfoldable pub is_empty_query : {H : Type 0} → Query H → Bool
is_empty_query (range start end) = ltb end start
is_empty_query (hash h) = false

abbrev pub not_found : Error
not_found = plain "compound handler could not find entries"

abbrev pub or_not_found : Option Error → Error
or_not_found none = not_found
or_not_found (some e) = e

abbrev pub collect : (Option Error → Error → Error) → Option Error → Option Error → Option Error
collect append merr none = merr
collect append merr (some e) = some (append merr e)

-- The end of `Get`: the entries, unless a store before has refused them.
abbrev pub answer : {H S : Type 0} → List (Entry H) → Option Error × S → Result (List (Entry H)) × S
answer entries (none, s) = (ok entries, s)
answer entries (some e, s) = (err e, s)

-- `append` is `multierr.Append(merr, err)` for an error.
module _ {H S : Type 0} (append : Option Error → Error → Error) (chain : Chain)
    (typ : EntryType) where
  -- `Put`, and the second loop of `Get`: every store gets the entries.
  unfoldable pub put_each :
      List (BlockStore H S) → List (Entry H) → Option Error → S → Option Error × S
  put_each [] entries merr s = (merr, s)
  put_each (store ∷ stores) entries merr s =
      let (e, s') = store.put chain typ entries s in
      put_each stores entries (collect append merr e) s'

  unfoldable pub put : List (BlockStore H S) → List (Entry H) → S → Option Error × S
  unfolding put_each
  put stores entries s = put_each stores entries none s

  -- The first loop of `Get`, with the stores that it has passed.
  unfoldable pub search :
      Query H
      → List (BlockStore H S)
      → List (BlockStore H S)
      → Option Error
      → S
      → Result (List (Entry H)) × S
  unfolding put_each
  search query passed [] merr s = (err (or_not_found merr), s)
  search query passed (store ∷ stores) merr s =
      let (r, s') = store.get chain typ query s in
      elim r [
        | err e ↦ search query (passed ++ (store ∷ [])) stores (some (append merr e)) s'
        | ok entries ↦ answer entries (put_each passed entries none s')
      ]

  unfoldable pub get : List (BlockStore H S) → Query H → S → Result (List (Entry H)) × S
  unfolding search is_empty_query
  get stores query s =
      let found = search query [] stores none s in
      if is_empty_query query then (ok [], s) else found
