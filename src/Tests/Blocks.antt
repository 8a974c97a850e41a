-- ===== src/Tests/Blocks.antt =====
-- lib/stores/blockstore at concrete inputs.
use native.Mathlib.Decide.{ℕ_discrete}
use venn.Prelude.{
  str_eq, str_eq_iff, ℕ, zero, suc, ◌-◌, ◌+◌, ◌≡◌, ◌⊎◌, refl, Bool, true, false, Option, none, some,
  List, [], ◌∷◌, ◌++◌, arith, map, ltb, take, if◌then◌else◌, ◌==◌, ◌&&◌,
}
use venn.Rpc.{str, Error, plain, ok, err}
use venn.Stores.Blocks.{
  EntryType, block_header, logs, receipts, Entry, Query, range, BlockStore, answer, put_each,
}
use venn.Stores.Blocks
use venn.Stores.Blocks.Layers.{all_fail, get-fills}
use venn.Stores.Blocks.Recent.{Lru, NumberKey, HashKey, LruStore, new_lru_store}
use venn.Stores.Blocks.Recent
use venn.Stores.Blocks.Recent.Sound.{from, Call, stored, run, get-range}
use venn.Tests.Data.{mainnet}

-- A cache of three entries, the latest one first.
module _ {K V : Type 0} (same : K → K → Bool) where
  abbrev find : K → List (K × V) → Option V
  find k [] = none
  find k (e ∷ c) = if same e.0 k then some e.1 else find k c

  find-take :
      (n : ℕ) (k : K) (w : V) (c : List (K × V)) → find k (take n c) ≡ some w → find k c ≡ some w
  find-take zero k w c h = absurd (ground arith)
  find-take (suc n) k w [] h = h
  find-take (suc n) k w (e ∷ c) h = ground (arith, find-take n k w c)

  pub find-add :
      ((j k : K) → same j k ≡ true → j ≡ k)
      → (j k : K) (v w : V) (c : List (K × V)) → find j (take 3 ((k, v) ∷ c)) ≡ some w
      → ((j ≡ k) × (w ≡ v)) ⊎ (find j c ≡ some w)
  find-add sound j k v w c h = ground (arith, find-take 2 j w c, sound k j)

abbrev same_type : EntryType → EntryType → Bool
same_type block_header block_header = true
same_type logs logs = true
same_type receipts receipts = true
same_type _ _ = false

same_type_sound : (a b : EntryType) → same_type a b ≡ true → a ≡ b
same_type_sound a b h = ground arith

abbrev same_number : NumberKey → NumberKey → Bool
same_number j k =
    same_type j.type k.type && (j.block_number == k.block_number) && str_eq j.chain k.chain

abbrev same_hash : HashKey ℕ → HashKey ℕ → Bool
same_hash j k = same_type j.type k.type && (j.block_hash == k.block_hash) && str_eq j.chain k.chain

pub same_number_sound : (j k : NumberKey) → same_number j k ≡ true → j ≡ k
same_number_sound j k h = ground (arith, same_type_sound j.type k.type, str_eq_iff j.chain k.chain)

pub same_hash_sound : (j k : HashKey ℕ) → same_hash j k ≡ true → j ≡ k
same_hash_sound j k h = ground (arith, same_type_sound j.type k.type, str_eq_iff j.chain k.chain)

abbrev by_hash : Lru (HashKey ℕ) (Entry ℕ)
by_hash = record {
  Cache = List (HashKey ℕ × Entry ℕ);
  init = [];
  get = λ k c. (find same_hash k c, c);
  add = λ k v c. take 3 ((k, v) ∷ c);
  purge = λ c. [];
  peek = find same_hash;
  peek-init = λ k. refl;
  get-peek = λ k c. refl;
  peek-get = λ j k c. refl;
  peek-add = find-add same_hash same_hash_sound;
  peek-purge = λ k c. refl;
}

abbrev by_number : Lru NumberKey (Entry ℕ)
by_number = record {
  Cache = List (NumberKey × Entry ℕ);
  init = [];
  get = λ k c. (find same_number k c, c);
  add = λ k v c. take 3 ((k, v) ∷ c);
  purge = λ c. [];
  peek = find same_number;
  peek-init = λ k. refl;
  get-peek = λ k c. refl;
  peek-get = λ j k c. refl;
  peek-add = find-add same_number same_number_sound;
  peek-purge = λ k c. refl;
}

abbrev entry : ℕ → Entry ℕ
entry n = record {
  block_hash = n + 1000;
  block_number = n;
  parent_hash = some (n + 999);
  value = str "block";
}

abbrev calls : List (Call ℕ_discrete by_hash by_number)
calls = stored mainnet block_header (entry 7 ∷ entry 8 ∷ []) ∷ []

abbrev state : LruStore ℕ_discrete by_hash by_number
state =
    run ℕ_discrete by_hash by_number (λ n. ltb n 100) calls
      (new_lru_store ℕ_discrete by_hash by_number)

got :
    Recent.get ℕ_discrete by_hash by_number (λ n. ltb n 100) mainnet block_header (range 7 8) state
    ≡ some (ok (entry 7 ∷ entry 8 ∷ []), state)
unfolding Recent.get run venn.Middlewares.LookBack.sub_uint64 Recent.put ℕ_discrete
got = refl

get-range_example : map Entry.block_number (entry 7 ∷ entry 8 ∷ []) ≡ from 7 (suc 8 - 7)
get-range_example =
    get-range ℕ_discrete by_hash by_number (λ n. ltb n 100) calls mainnet block_header 7 8
      (entry 7 ∷ entry 8 ∷ []) state got

-- A store that has nothing, one that has a block, and what they count: their calls.
abbrev missing : BlockStore ℕ ℕ
missing = record {
  get = λ c t q s. (err (plain "not found"), s + 1);
  put = λ c t es s. (none, s + 100);
}

abbrev full : BlockStore ℕ ℕ
full = record { get = λ c t q s. (ok (entry 7 ∷ []), s + 10); put = λ c t es s. (none, s + 1000) }

abbrev merge : Option Error → Error → Error
merge merr e = e

abbrev seven : Query ℕ
seven = range 7 7

failed_run : all_fail merge mainnet block_header seven (missing ∷ []) 0 ≡ some 1
unfolding all_fail
failed_run = refl

not_empty : Blocks.is_empty_query seven ≡ false
unfolding Blocks.is_empty_query
not_empty = refl

get-fills_run :
    Blocks.get merge mainnet block_header ((missing ∷ []) ++ (full ∷ missing ∷ [])) seven 0
    ≡ answer
        (entry 7 ∷ [])
        (put_each merge mainnet block_header (missing ∷ []) (entry 7 ∷ []) none 11)
get-fills_run =
    get-fills merge mainnet block_header seven (missing ∷ []) (missing ∷ []) full (entry 7 ∷ []) 0 1
      11 not_empty failed_run refl
