-- ===== src/Stores/Chain/Whole.antt =====
-- The ranges of svc/node/stores/vennstores/chainblock/module.go are whole or empty.
use mathlib.Core.Logic.{ite}
use venn.Prelude.{
  ℕ, zero, suc, ◌-◌, ◌≡◌, refl, ap, ◌⊎◌, inl, inr, String, Bool, true, false, Option, none, some,
  List, [], ◌∷◌, map, if◌then◌else◌,
}
use venn.Rpc.{
  Json, Items, Chain, Handler, Hexutil, Result, ok, err, do_raw, arr, str, bool, cons, nil,
}
use venn.Stores.Blocks.{block_header, receipts, Entry, range}
use venn.Stores.Blocks.Recent.Sound.{from}
use venn.Stores.Heads.{Head, read_head, read_first}
use venn.Stores.Chain.{
  Found, cons_found, on_head, on_block, fetch_range, or_nothing, get_headers, get_receipts, get,
  Got, entry_of, by_number_keys, block_hash_keys,
}

module _ (hex : Hexutil) (dec : Discrete hex.Hash) {S : Type 0} (remote : Handler S)
    (chain : Chain) where
  abbrev pub block_numbers : List (Entry hex.Hash) → List ℕ
  block_numbers es = map Entry.block_number es

  abbrev Fd : Type 0
  Fd = Found hex dec remote chain

  -- What the remote answers where it is asked for a number.
  abbrev pub reply_of : String → Items → ℕ → S → Result Json × S
  reply_of method args n s =
      do_raw hex remote (some chain) method (arr (cons (str (hex.encode_uint64 n)) args)) s

  -- Each entry holds what the remote answered when it was asked for its number, in this order, and the
  -- hash that is read from the answer.
  abbrev pub Answered :
      String → Items → (Json → Option (Head hex.Hash)) → List (Entry hex.Hash) → S → Type 0
  Answered method args read [] s = Unit
  Answered method args read (e ∷ es) s =
      ((reply_of method args e.block_number s).0 ≡ ok e.value)
      × (((head : Head hex.Hash) × ((read e.value ≡ some head) × (head.block_hash ≡ e.block_hash)))
          × Answered method args read es (reply_of method args e.block_number s).1)

  module _ (method : String) (args : Items) (read : Json → Option (Head hex.Hash))
      (parent : Bool) where
    -- The entries that are found have these numbers, and were asked for from this state on.
    abbrev HasNumbers : List ℕ → S → Fd → Type 0
    HasNumbers ns s (err e) = Unit
    HasNumbers ns s (ok none) = Unit
    HasNumbers ns s (ok (some es)) = (block_numbers es ≡ ns) × Answered method args read es s

    cons_found-HasNumbers :
        (e : Entry hex.Hash) (ns : List ℕ) (s : S) (found : Fd)
        → (reply_of method args e.block_number s).0 ≡ ok e.value
        → (head : Head hex.Hash) × ((read e.value ≡ some head) × (head.block_hash ≡ e.block_hash))
        → HasNumbers ns (reply_of method args e.block_number s).1 found
        → HasNumbers (e.block_number ∷ ns) s (cons_found hex dec remote chain e found)
    cons_found-HasNumbers e ns s (err x) a r h = tt
    cons_found-HasNumbers e ns s (ok none) a r h = tt
    cons_found-HasNumbers e ns s (ok (some es)) a r (h, k) =
        (ap (◌∷◌ e.block_number) h, (a, (r, k)))

    on_head-HasNumbers :
        (i : ℕ) (block : Json) (head : Option (Head hex.Hash)) (s : S) (rest : S → Fd × S)
        (ns : List ℕ)
        → (reply_of method args i s).0 ≡ ok block
        → read block ≡ head
        → ((s' : S) → HasNumbers ns s' (rest s').0)
        → HasNumbers
            (i ∷ ns)
            s
            (on_head hex dec remote chain parent i block head (reply_of method args i s).1 rest).0
    on_head-HasNumbers i block none s rest ns a r h = tt
    on_head-HasNumbers i block (some head) s rest ns a r h =
        let s' = (reply_of method args i s).1 in
        elim (dec head.block_hash hex.zero_hash)
          as (λ d.
            HasNumbers (i ∷ ns) s
              (ite {C = Fd × S} d (ok none, s')
                (
                  cons_found hex dec remote chain (entry_of hex parent i block head) (rest s').0,
                  (rest s').1,
                )).0) [
                  | yes e ↦ tt
                  | no n ↦
                      cons_found-HasNumbers (entry_of hex parent i block head) ns s (rest s').0 a
                        (head, (r, refl)) (h s')
                ]

    on_block-HasNumbers :
        (i : ℕ) (block : Result Json) (s : S) (rest : S → Fd × S) (ns : List ℕ)
        → (reply_of method args i s).0 ≡ block
        → ((s' : S) → HasNumbers ns s' (rest s').0)
        → HasNumbers
            (i ∷ ns)
            s
            (on_block hex dec remote chain read parent i block (reply_of method args i s).1 rest).0
    on_block-HasNumbers i (err e) s rest ns a h = tt
    on_block-HasNumbers i (ok block) s rest ns a h =
        on_head-HasNumbers i block (read block) s rest ns a refl h

    fetch_range-HasNumbers :
        (m i : ℕ) (s : S)
        → HasNumbers (from i m) s (fetch_range hex dec remote chain method args read parent m i s).0
    unfolding fetch_range
    fetch_range-HasNumbers zero i s = (refl, tt)
    fetch_range-HasNumbers (suc m) i s =
        on_block-HasNumbers i (reply_of method args i s).0 s
          (fetch_range hex dec remote chain method args read parent m (suc i)) (from (suc i) m) refl
          (fetch_range-HasNumbers m (suc i))

    abbrev pub AllOrNone : List ℕ → S → Result (List (Entry hex.Hash)) → Type 0
    AllOrNone ns s (err e) = Unit
    AllOrNone ns s (ok es) = (es ≡ []) ⊎ ((block_numbers es ≡ ns) × Answered method args read es s)

    or_nothing-AllOrNone :
        (ns : List ℕ) (s : S) (found : Fd) (s' : S)
        → HasNumbers ns s found
        → AllOrNone ns s (or_nothing hex dec remote chain (found, s')).0
    or_nothing-AllOrNone ns s (err e) s' h = tt
    or_nothing-AllOrNone ns s (ok none) s' h = inl refl
    or_nothing-AllOrNone ns s (ok (some es)) s' h = inr h

  module _ (fits : ℕ → Bool) (start end : ℕ) (s : S) where
    -- All entries of the range, as the remote answers the method, or none.
    abbrev pub Whole :
        String → Items → (Json → Option (Head hex.Hash)) → Got hex dec remote chain → Type 0
    Whole method args read none = Unit
    Whole method args read (some (r, s')) =
        AllOrNone method args read true (from start (suc end - start)) s r

    whole :
        (method : String) (args : Items) (read : Json → Option (Head hex.Hash)) (parent : Bool)
        (empty fit : Bool) (found : Fd × S)
        → HasNumbers method args read parent (from start (suc end - start)) s found.0
        → Whole method args read (
            if empty
            then some (ok [], s)
            else if fit
            then some (or_nothing hex dec remote chain found)
            else none)
    whole method args read parent true fit found h = inl refl
    whole method args read parent false false found h = tt
    whole method args read parent false true (found, s') h =
        or_nothing-AllOrNone method args read parent _ s found s' h

    -- Blocks that are got for a range are all those of the range, in order, or none, and so are receipts:
    -- each holds what the remote answered to the question for its number, asked one after the other, and the
    -- hash that this answer has.
    pub get-Whole :
        Whole "eth_getBlockByNumber"
          (cons (bool true) nil)
          (read_head hex by_number_keys)
          (get hex dec remote chain fits block_header (range start end) s)
        × Whole "eth_getBlockReceipts" nil
            (read_first hex block_hash_keys)
            (get hex dec remote chain fits receipts (range start end) s)
    unfolding get get_headers get_receipts
    get-Whole = (
      whole _ _ _ true _ _ _ (
          fetch_range-HasNumbers _ _ (read_head hex by_number_keys) true (suc end - start) start s),
      whole _ _ _ false _ _ _ (
          fetch_range-HasNumbers _ _ (read_first hex block_hash_keys) false (suc end - start) start
            s),
    )
