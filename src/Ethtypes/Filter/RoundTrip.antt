-- ===== src/Ethtypes/Filter/RoundTrip.antt =====
-- Reading back the arguments of `eth_getLogs` that lib/ethtypes/filter.go has written.
use mathlib.Core.List.{append_assoc, append-nil}
use venn.Prelude.{◌-◌, ◌^◌, ◌≡◌, refl, sym, ap, ◌∙◌, Option, none, some, List, [], ◌∷◌, ◌++◌, map}
use venn.Prelude.Int.{ℤ, pos, negsuc, ◌≤ℤ◌}
use venn.Rpc.{Fields, end, of_list, Hexutil}
use venn.Ethtypes.BlockNumber.{unmarshal, marshal_block}
use venn.Ethtypes.BlockNumber.RoundTrip.{unmarshal-marshal_block}
use venn.Ethtypes.Filter.{
  fold_rune, equal_fold, FilterQuery, pointer, option_map, set_from_block, set_to_block,
  set_addresses, set_topics, empty_query, decode_topic, alternatives, decode_position,
  decode_positions, decode_topics, decode_all, decode_addresses, address_json, marshal_addresses,
  set_field, set_fields, decode_query, topic_json, position_json, opt_field, unless_empty,
  topics_json, marshal_query,
}

abbrev pub InRange : Option ℤ → Type 0
InRange none = Unit
InRange (some b) = (negsuc 4 ≤ℤ b) × (b ≤ℤ pos (2 ^ 63 - 1))

module _ (hex : Hexutil) where
  decode_topic-encode : (h : hex.Hash) → decode_topic hex (hex.encode_hash h) ≡ some h
  unfolding decode_topic
  decode_topic-encode h =
      let (b, d, l, e) = hex.decode-encode_hash h in
      rw (d, decode_topic) (rw (l, decode_topic) (ap some e))

  alternatives_lem :
      (hs ts : List hex.Hash)
      → alternatives hex hs (of_list (map (topic_json hex) ts)) ≡ some (hs ++ ts)
  unfolding alternatives of_list
  alternatives_lem hs [] = ap some (sym (append-nil hs))
  alternatives_lem hs (t ∷ ts) =
      rw (decode_topic-encode t, alternatives)
        (alternatives_lem (hs ++ (t ∷ [])) ts ∙ ap some (append_assoc hs (t ∷ []) ts))

  position_lem : (ts : List hex.Hash) → decode_position hex (position_json hex ts) ≡ some ts
  unfolding decode_position
  position_lem [] = refl
  position_lem (t ∷ ts) = alternatives_lem [] (t ∷ ts)

  positions_lem :
      (ts : List (List hex.Hash))
      → decode_positions hex (of_list (map (position_json hex) ts)) ≡ some ts
  unfolding decode_positions of_list
  positions_lem [] = refl
  positions_lem (t ∷ ts) = rw (position_lem t, positions_lem ts)

  all_lem : (xs : List hex.Address) → decode_all hex (of_list (map (address_json hex) xs)) ≡ some xs
  unfolding decode_all of_list
  all_lem [] = refl
  all_lem (a ∷ xs) = rw (hex.decode_address-encode a, all_lem xs)

  -- Addresses are read back from the JSON that is written for them, a single one or an array.
  pub decode-marshal_addresses :
      (xs : List hex.Address) → decode_addresses hex (marshal_addresses hex xs) ≡ some xs
  unfolding decode_addresses marshal_addresses
  decode-marshal_addresses [] = all_lem []
  decode-marshal_addresses (a ∷ []) = rw (hex.decode_address-encode a)
  decode-marshal_addresses (a ∷ b ∷ xs) = all_lem (a ∷ b ∷ xs)

  pointer_block :
      (b : ℤ)
      → negsuc 4 ≤ℤ b
      → b ≤ℤ pos (2 ^ 63 - 1)
      → pointer (unmarshal hex) (marshal_block hex b) ≡ some (some b)
  unfolding marshal_block
  pointer_block b l u =
      ap (λ (o : Option ℤ). elim o [ some a ↦ some (some a) | none ↦ none ])
        (unmarshal-marshal_block hex b l u)

  pointer_hash : (h : hex.Hash) → pointer hex.decode_hash (topic_json hex h) ≡ some (some h)
  pointer_hash h =
      ap (λ (o : Option hex.Hash). elim o [ some a ↦ some (some a) | none ↦ none ])
        (hex.decode_hash-encode h)

  abbrev query :
      Option hex.Hash
      → Option ℤ
      → Option ℤ
      → List hex.Address
      → List (List hex.Hash)
      → FilterQuery hex.Address hex.Hash
  query h b c xs ts = record {
    block_hash = h;
    from_block = b;
    to_block = c;
    addresses = xs;
    topics = ts;
  }

  -- What one written field does to the arguments that were read before it.
  topics_step :
      (h : Option hex.Hash) (b c : Option ℤ) (xs : List hex.Address) (ts : List (List hex.Hash))
      → set_fields hex
          (opt_field hex "topics" (unless_empty hex (topics_json hex) ts) end)
          (query h b c xs [])
        ≡ some (query h b c xs ts)
  unfolding set_fields set_field equal_fold fold_rune decode_topics
  topics_step h b c xs [] = refl
  topics_step h b c xs (t ∷ ts) =
      ap
        (λ (o : Option (List (List hex.Hash))). elim (set_topics o (query h b c xs [])) [
          | none ↦ none
          | some q ↦ some q
        ])
        (positions_lem (t ∷ ts))

  addresses_step :
      (h : Option hex.Hash) (b c : Option ℤ) (xs : List hex.Address) (fs : Fields)
      → set_fields hex
          (opt_field hex "address" (unless_empty hex (marshal_addresses hex) xs) fs)
          (query h b c [] [])
        ≡ set_fields hex fs (query h b c xs [])
  unfolding set_fields set_field equal_fold fold_rune
  addresses_step h b c [] fs = refl
  addresses_step h b c (x ∷ xs) fs =
      ap
        (λ (o : Option (List hex.Address)). elim (set_addresses o (query h b c [] [])) [
          | none ↦ none
          | some q ↦ set_fields hex fs q
        ])
        (decode-marshal_addresses (x ∷ xs))

  to_step :
      (h : Option hex.Hash) (b c : Option ℤ) (fs : Fields)
      → InRange c
      → set_fields hex
          (opt_field hex "toBlock" (option_map (marshal_block hex) c) fs)
          (query h b none [] [])
        ≡ set_fields hex fs (query h b c [] [])
  unfolding set_fields set_field equal_fold fold_rune
  to_step h b none fs r = refl
  to_step h b (some c) fs (l, u) =
      ap
        (λ (o : Option (Option ℤ)). elim (set_to_block o (query h b none [] [])) [
          | none ↦ none
          | some q ↦ set_fields hex fs q
        ])
        (pointer_block c l u)

  from_step :
      (h : Option hex.Hash) (b : Option ℤ) (fs : Fields)
      → InRange b
      → set_fields hex
          (opt_field hex "fromBlock" (option_map (marshal_block hex) b) fs)
          (query h none none [] [])
        ≡ set_fields hex fs (query h b none [] [])
  unfolding set_fields set_field equal_fold fold_rune
  from_step h none fs r = refl
  from_step h (some b) fs (l, u) =
      ap
        (λ (o : Option (Option ℤ)). elim (set_from_block o (query h none none [] [])) [
          | none ↦ none
          | some q ↦ set_fields hex fs q
        ])
        (pointer_block b l u)

  hash_step :
      (h : Option hex.Hash) (fs : Fields)
      → set_fields hex (opt_field hex "blockHash" (option_map (topic_json hex) h) fs) empty_query
        ≡ set_fields hex fs (query h none none [] [])
  unfolding set_fields set_field equal_fold fold_rune
  hash_step none fs = refl
  hash_step (some h) fs = rw (pointer_hash h)

  -- The arguments of `eth_getLogs`, whichever of their fields are set, are read back from the JSON that is
  -- written for them, if their block numbers are named tags or at most 2^63 - 1.
  pub decode-marshal_query :
      (q : FilterQuery hex.Address hex.Hash)
      → InRange q.from_block
      → InRange q.to_block
      → decode_query hex (marshal_query hex q) ≡ some q
  unfolding decode_query marshal_query
  decode-marshal_query q f t =
      hash_step q.block_hash _
      ∙ from_step q.block_hash q.from_block _ f
      ∙ to_step q.block_hash q.from_block q.to_block _ t
      ∙ addresses_step q.block_hash q.from_block q.to_block q.addresses _
      ∙ topics_step q.block_hash q.from_block q.to_block q.addresses q.topics
