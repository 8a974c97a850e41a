-- ===== src/Ethtypes/Filter.antt =====
-- lib/ethtypes/filter.go: the arguments of `eth_getLogs` and their JSON.
pub mod RoundTrip
use venn.Prelude.{
  ℕ, ◌+◌, ◌-◌, String, Bool, true, false, ◌&&◌, Option, none, some, List, [], ◌∷◌, ◌++◌, length,
  ◌==◌, leb, if◌then◌else◌, map,
}
use venn.Prelude.Int.{ℤ}
use venn.Rpc.{
  Json, null, bool, num, str, arr, obj, Items, nil, cons, Fields, end, field, to_list, of_list,
  Hexutil,
}
use venn.Util.Text.{codes}
use venn.Ethtypes.BlockNumber.{unmarshal, marshal_block}

-- How encoding/json compares a key with a field's name.
unfoldable pub fold_rune : ℕ → ℕ
fold_rune c =
    if leb b'a' c && leb c b'z'
    then c - 32
    else if c == 0x17F
    then b'S'
    else if c == 0x212A
    then b'K'
    else c

unfoldable pub equal_fold : List ℕ → List ℕ → Bool
unfolding fold_rune
equal_fold [] [] = true
equal_fold (c ∷ s) (d ∷ t) = (fold_rune c == fold_rune d) && equal_fold s t
equal_fold _ _ = false

abbrev pub key_is : String → String → Bool
key_is name k = equal_fold (codes name) (codes k)

pub record FilterQuery (A H : Type 0) : Type 0 where
  pub block_hash : Option H
  pub from_block : Option ℤ
  pub to_block : Option ℤ
  pub addresses : List A
  pub topics : List (List H)

abbrev pub cons_some {ℓ} : {A : Type ℓ} → Option A → Option (List A) → Option (List A)
cons_some (some x) (some xs) = some (x ∷ xs)
cons_some _ _ = none

-- A pointer field: null leaves nil, anything else must decode.
abbrev pub pointer {ℓ} : {A : Type ℓ} → (Json → Option A) → Json → Option (Option A)
pointer decode null = some none
pointer decode v = elim (decode v) [ some a ↦ some (some a) | none ↦ none ]

abbrev pub option_map {ℓ κ} : {A : Type ℓ} {B : Type κ} → (A → B) → Option A → Option B
option_map f none = none
option_map f (some a) = some (f a)

module _ {A H : Type 0} where
  abbrev pub set_block_hash : Option (Option H) → FilterQuery A H → Option (FilterQuery A H)
  set_block_hash none q = none
  set_block_hash (some h) q = some (record q { block_hash = h })

  abbrev pub set_from_block : Option (Option ℤ) → FilterQuery A H → Option (FilterQuery A H)
  set_from_block none q = none
  set_from_block (some b) q = some (record q { from_block = b })

  abbrev pub set_to_block : Option (Option ℤ) → FilterQuery A H → Option (FilterQuery A H)
  set_to_block none q = none
  set_to_block (some b) q = some (record q { to_block = b })

  abbrev pub set_addresses : Option (List A) → FilterQuery A H → Option (FilterQuery A H)
  set_addresses none q = none
  set_addresses (some xs) q = some (record q { addresses = xs })

  -- No topic leaves the field as it is.
  abbrev pub set_topics : Option (List (List H)) → FilterQuery A H → Option (FilterQuery A H)
  set_topics none q = none
  set_topics (some []) q = some q
  set_topics (some (t ∷ ts)) q = some (record q { topics = t ∷ ts })

  abbrev pub empty_query : FilterQuery A H
  empty_query = record {
    block_hash = none;
    from_block = none;
    to_block = none;
    addresses = [];
    topics = [];
  }

module _ (hex : Hexutil) where
  unfoldable pub decode_topic : String → Option hex.Hash
  decode_topic s = elim (hex.decode s) [
    | none ↦ none
    | some b ↦ if length b == 32 then some (hex.bytes_to_hash b) else none
  ]

  -- The alternatives of one position: null matches all and ends the loop.
  unfoldable pub alternatives : List hex.Hash → Items → Option (List hex.Hash)
  alternatives hs nil = some hs
  alternatives hs (cons null ts) = some []
  alternatives hs (cons (str s) ts) = elim (decode_topic s) [
    | none ↦ none
    | some h ↦ alternatives (hs ++ (h ∷ [])) ts
  ]
  alternatives hs (cons _ ts) = none

  unfoldable pub decode_position : Json → Option (List hex.Hash)
  decode_position null = some []
  decode_position (str s) = elim (decode_topic s) [ none ↦ none | some h ↦ some (h ∷ []) ]
  decode_position (arr ts) = alternatives [] ts
  decode_position _ = none

  unfoldable pub decode_positions : Items → Option (List (List hex.Hash))
  decode_positions nil = some []
  decode_positions (cons t ts) = cons_some (decode_position t) (decode_positions ts)

  -- `FilterQueryTopics.UnmarshalJSON`
  unfoldable pub decode_topics : Json → Option (List (List hex.Hash))
  decode_topics null = some []
  decode_topics (arr ts) = decode_positions ts
  decode_topics _ = none

  unfoldable pub decode_all : Items → Option (List hex.Address)
  decode_all nil = some []
  decode_all (cons v vs) = cons_some (hex.decode_address v) (decode_all vs)

  -- `OneOrArray.UnmarshalJSON` and `MarshalJSON`, at addresses.
  unfoldable pub decode_addresses : Json → Option (List hex.Address)
  decode_addresses null = some []
  decode_addresses (arr vs) = decode_all vs
  decode_addresses v = elim (hex.decode_address v) [ none ↦ none | some a ↦ some (a ∷ []) ]

  abbrev pub address_json : hex.Address → Json
  address_json a = str (hex.encode_address a)

  unfoldable pub marshal_addresses : List hex.Address → Json
  marshal_addresses (a ∷ []) = address_json a
  marshal_addresses xs = arr (of_list (map address_json xs))

  -- One field of the object; a key that no field has is skipped.
  unfoldable pub set_field :
      String → Json → FilterQuery hex.Address hex.Hash → Option (FilterQuery hex.Address hex.Hash)
  set_field k v q =
      if key_is "blockHash" k
      then set_block_hash (pointer hex.decode_hash v) q
      else if key_is "fromBlock" k
      then set_from_block (pointer (unmarshal hex) v) q
      else if key_is "toBlock" k
      then set_to_block (pointer (unmarshal hex) v) q
      else if key_is "address" k
      then set_addresses (decode_addresses v) q
      else if key_is "topics" k
      then set_topics (decode_topics v) q
      else some q

  unfoldable pub set_fields :
      Fields → FilterQuery hex.Address hex.Hash → Option (FilterQuery hex.Address hex.Hash)
  set_fields end q = some q
  set_fields (field k v fs) q = elim (set_field k v q) [ none ↦ none | some q' ↦ set_fields fs q' ]

  unfoldable pub decode_query : Json → Option (FilterQuery hex.Address hex.Hash)
  decode_query null = some empty_query
  decode_query (obj fs) = set_fields fs empty_query
  decode_query _ = none

  abbrev pub topic_json : hex.Hash → Json
  topic_json h = str (hex.encode_hash h)

  abbrev pub position_json : List hex.Hash → Json
  position_json [] = null
  position_json (h ∷ hs) = arr (of_list (map topic_json (h ∷ hs)))

  -- `omitempty`: nil and no elements are left out.
  abbrev pub opt_field : String → Option Json → Fields → Fields
  opt_field k none fs = fs
  opt_field k (some v) fs = field k v fs

  abbrev pub unless_empty {ℓ} : {A : Type ℓ} → (List A → Json) → List A → Option Json
  unless_empty f [] = none
  unless_empty f (x ∷ xs) = some (f (x ∷ xs))

  abbrev pub topics_json : List (List hex.Hash) → Json
  topics_json ts = arr (of_list (map position_json ts))

  unfoldable pub marshal_query : FilterQuery hex.Address hex.Hash → Json
  marshal_query q = obj (
      opt_field "blockHash" (option_map topic_json q.block_hash) (
        opt_field "fromBlock" (option_map (marshal_block hex) q.from_block) (
          opt_field "toBlock" (option_map (marshal_block hex) q.to_block) (
            opt_field "address" (unless_empty marshal_addresses q.addresses)
              (opt_field "topics" (unless_empty topics_json q.topics) end)))))
