-- ===== src/Stores/Blocks/Recent/Keys.antt =====
-- Entries under their own keys (lib/stores/blockstore/lru.go).
use venn.Prelude.{ℕ, ◌≡◌, inl, inr, sym, ap, ◌∙◌, Bool, true, false, Option, none, some, arith}
use venn.Rpc.{Chain}
use venn.Stores.Blocks.{EntryType, Entry}
use venn.Stores.Blocks.Recent.{Lru, NumberKey, HashKey, purged, check_parent}

module _ {H : Type 0} (dec : Discrete H) (hashes : Lru (HashKey H) (Entry H))
    (numbers : Lru NumberKey (Entry H)) where
  -- Entries stand under their own numbers and hashes.
  abbrev pub NumbersRight : numbers.Cache → Type 0
  NumbersRight c =
      (k : NumberKey) (e : Entry H) → numbers.peek k c ≡ some e → e.block_number ≡ k.block_number

  abbrev pub HashesRight : hashes.Cache → Type 0
  HashesRight c =
      (k : HashKey H) (e : Entry H) → hashes.peek k c ≡ some e → e.block_hash ≡ k.block_hash

  pub numbers_get :
      (j : NumberKey) (c : numbers.Cache) → NumbersRight c → NumbersRight (numbers.get j c).1
  numbers_get j c h k e p = h k e (sym (numbers.peek-get k j c) ∙ p)

  pub numbers_purge : (c : numbers.Cache) → NumbersRight (numbers.purge c)
  numbers_purge c k e p = absurd (ground (arith, numbers.peek-purge k c))

  pub numbers_add :
      (k : NumberKey) (v : Entry H) (c : numbers.Cache)
      → v.block_number ≡ k.block_number
      → NumbersRight c
      → NumbersRight (numbers.add k v c)
  numbers_add k v c r h j e p = elim (numbers.peek-add j k v e c p) [
    | inl (same, added) ↦ ap Entry.block_number added ∙ r ∙ ap NumberKey.block_number (sym same)
    | inr old ↦ h j e old
  ]

  pub hashes_add :
      (k : HashKey H) (v : Entry H) (c : hashes.Cache)
      → v.block_hash ≡ k.block_hash
      → HashesRight c
      → HashesRight (hashes.add k v c)
  hashes_add k v c r h j e p = elim (hashes.peek-add j k v e c p) [
    | inl (same, added) ↦ ap Entry.block_hash added ∙ r ∙ ap HashKey.block_hash (sym same)
    | inr old ↦ h j e old
  ]

  pub numbers_purged :
      (b : Bool) (c : numbers.Cache) → NumbersRight c → NumbersRight (purged dec hashes numbers b c)
  numbers_purged true c h = numbers_purge c
  numbers_purged false c h = h

  pub numbers_check_parent :
      (chain : Chain) (typ : EntryType) (number : ℕ) (parent : Option H) (c : numbers.Cache)
      → NumbersRight c
      → NumbersRight (check_parent dec hashes numbers chain typ number parent c)
  unfolding check_parent
  numbers_check_parent chain typ number none c h = h
  numbers_check_parent chain typ number (some parent) c h = numbers_purged _ _ (numbers_get _ c h)
