-- ===== src/Tests/Shared.antt =====
-- The stores in Redis at concrete inputs.
use venn.Prelude.{
  ℕ, ◌+◌, ◌≡◌, refl, Bool, true, false, Option, none, some, [], ◌∷◌, arith, ◌⊎◌, ◌≢◌, String,
  if◌then◌else◌, ◌==◌, some-injective, str_eq, str_eq_iff, ap, ◌∙◌,
}
use venn.Prelude.Maps.{lookup}
use venn.Middlewares.LookBack.{sub_uint64}
use venn.Rpc.{str, ok, err, plain}
use venn.Stores.Blocks.{block_header, Entry, range}
use venn.Stores.Redihead.{new_redihead, current, message, message_error, closed, start}
use venn.Stores.Redihead.Greatest.{start-current}
use venn.Stores.Rediblock.{Outcomes, done, Keys, empty_keys, put, get, redis_nil, Expiring}
use venn.Stores.Rediblock.Reorg.{Contradicted}
use venn.Stores.Rediblock.RoundTrip.{put-get, put-forgets}
use venn.Tests.Hex.{hexutil}
use venn.Tests.Data.{mainnet, same_bool}

start-current_example :
    current "mainnet" (
      start
        ((ok (("mainnet", 7) ∷ []), message "goerli" 90 ∷ closed ∷ message "mainnet" 6 ∷ [])
          ∷ (err (plain "timeout"), message "mainnet" 40 ∷ [])
          ∷ (ok [], message "mainnet" 9 ∷ message_error ∷ message "mainnet" 8 ∷ [])
          ∷ [])
        new_redihead)
    ≡ 9
unfolding current lookup
start-current_example =
    start-current "mainnet"
      ((ok (("mainnet", 7) ∷ []), message "goerli" 90 ∷ closed ∷ message "mainnet" 6 ∷ [])
        ∷ (err (plain "timeout"), message "mainnet" 40 ∷ [])
        ∷ (ok [], message "mainnet" 9 ∷ message_error ∷ message "mainnet" 8 ∷ [])
        ∷ [])
      new_redihead

abbrev all_done : Outcomes
all_done = record { check = done; list = done; delete = done; add = done }

abbrev block : ℕ → Bool → Option Bool → Entry Bool
block n h parent = record {
  block_hash = h;
  block_number = n;
  parent_hash = parent;
  value = str "header";
}

abbrev fits : ℕ → Bool
fits n = true

abbrev before : Keys hexutil same_bool
before =
    (put hexutil same_bool all_done mainnet block_header
      (block 3 false none ∷ block 4 true none ∷ []) (empty_keys hexutil same_bool)).1

put-get_example :
    get hexutil same_bool fits done block_header
      (range 5 (5 + 1))
      (put hexutil same_bool all_done mainnet block_header
        (block 5 true (some false) ∷ block 6 false (some true) ∷ [])
        before).1
    ≡ some (ok (block 5 true none ∷ block 6 false none ∷ []))
unfolding put sub_uint64
put-get_example =
    put-get hexutil same_bool fits block_header all_done mainnet 5 (block 5 true (some false))
      (block 6 false (some true) ∷ []) before (refl, (refl, tt)) (omega arith) (omega arith) refl
      refl refl

abbrev held : ℕ → String → Expiring String
held seconds text = record { seconds = seconds; value = text }

full_text : (w v : Expiring String) → str_eq w.value "" ≡ false → some w ≡ some v → v.value ≢ ""
full_text w v f e h =
    let there : w ≡ v = some-injective _ _ e in
    absurd (
      ground
        (arith, f, (str_eq_iff w.value "").1 (ap (λ (x : Expiring String). x.value) there ∙ h)))

one_of :
    (a b : Bool) (n m : ℕ) (v : Expiring String)
    → (if a
        then some (held n (hexutil.encode_hash true))
        else if b
        then some (held m (hexutil.encode_hash false))
        else none)
      ≡ some v
    → v.value ≢ ""
one_of true b n m v e = full_text _ v refl e
one_of false true n m v e = full_text _ v refl e
one_of false false n m v e = ground arith

-- What Redis has for a number is the text of a hash.
before_full :
    (m : ℕ) (v : Expiring String) → before.number_hash block_header m ≡ some v → v.value ≢ ""
unfolding put
before_full m v e = one_of (4 == m) (3 == m) 12 12 v e

put-forgets_example :
    (Contradicted hexutil same_bool block_header before (block 5 true (some false) ∷ [])
      × (get hexutil same_bool fits done block_header
            (range 3 3)
            (put hexutil same_bool all_done mainnet block_header
              (block 5 true (some false) ∷ [])
              before).1
          ≡ some (err redis_nil)))
    ⊎ ((¬ Contradicted hexutil same_bool block_header before (block 5 true (some false) ∷ []))
        × (get hexutil same_bool fits done block_header
              (range 3 3)
              (put hexutil same_bool all_done mainnet block_header
                (block 5 true (some false) ∷ [])
                before).1
            ≡ get hexutil same_bool fits done block_header (range 3 3) before))
unfolding put sub_uint64
put-forgets_example =
    put-forgets hexutil same_bool fits block_header 3 refl refl all_done mainnet
      (block 5 true (some false) ∷ []) before ((λ e. ground arith), tt) before_full refl
