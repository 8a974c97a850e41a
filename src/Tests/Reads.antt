-- ===== src/Tests/Reads.antt =====
-- lib/ethtypes at concrete inputs.
use venn.Ethtypes.BlockNumber.{safe}
use venn.Ethtypes.BlockNumberOrHash.{unmarshal_block, of_number, of_hash, number}
use venn.Util.Text.{byte_length}
use native.Mathlib.Decide.{ℕ_discrete as dec}
use venn.Prelude.{ℕ, ◌≡◌, ◌↔◌, refl, Bool, true, false, none, some, List, [], ◌∷◌, arith}
use venn.Prelude.Int.{pos, negsuc}
use venn.Prelude.Maps.{lookup}
use venn.Rpc.{str, ok}
use venn.Ethtypes.BlockNumber.{unmarshal, marshal_block}
use venn.Ethtypes.BlockNumber.RoundTrip.{unmarshal-marshal_block}
use venn.Ethtypes.Filter.{FilterQuery, decode_query, marshal_query}
use venn.Ethtypes.Filter.RoundTrip.{decode-marshal_query}
use venn.Ethtypes.Logs.{LogAddressTopics, compile_filter, check, put_all, check_topics, topic_sets}
use venn.Ethtypes.Logs.Matching.{Allows, MatchesPrefix, constrained, check-compile_iff}
use venn.Middlewares.InputData.{RawMap, put, fill}
use venn.Tests.Hex.{hexutil}

unmarshal-marshal_block_example :
    unmarshal hexutil (marshal_block hexutil (pos 17_000_000)) ≡ some (pos 17_000_000)
unmarshal-marshal_block_example =
    unmarshal-marshal_block hexutil (pos 17_000_000) (omega arith) (omega arith)

-- The logs of one address from block 100 on, with any first topic and one of two second ones.
abbrev query : FilterQuery Bool Bool
query = record {
  block_hash = none;
  from_block = some (pos 100);
  to_block = some (negsuc 0);
  addresses = true ∷ [];
  topics = [] ∷ (true ∷ false ∷ []) ∷ [];
}

decode-marshal_query_example : decode_query hexutil (marshal_query hexutil query) ≡ some query
decode-marshal_query_example =
    decode-marshal_query hexutil query (omega arith, omega arith) (omega arith, omega arith)

abbrev log : LogAddressTopics ℕ ℕ
log = record { address = 7; topics = 1 ∷ 2 ∷ [] }

abbrev topics : List (List ℕ)
topics = [] ∷ (2 ∷ 3 ∷ []) ∷ []

check-compile_iff_example :
    (check dec dec (compile_filter dec dec (7 ∷ []) topics) log ≡ true)
    ↔ (Allows (7 ∷ []) log.address × MatchesPrefix (constrained topics) log.topics)
check-compile_iff_example = check-compile_iff dec dec (7 ∷ []) topics log

-- A log without topics passes a filter with one position and no alternative, against the rule.
bare_run :
    (check dec dec (compile_filter dec dec [] ([] ∷ [])) (record { address = 7; topics = [] })
      ≡ true)
    × (¬ MatchesPrefix {H = ℕ} ([] ∷ []) [])
unfolding check compile_filter put_all check_topics topic_sets
bare_run = (refl, λ h. h)

abbrev call : RawMap
call = ("input", str "0x1234") ∷ ("to", str "0xaa") ∷ []

abbrev filled : RawMap
filled = ("data", str "0x1234") ∷ ("input", str "0x1234") ∷ ("to", str "0xaa") ∷ []

fill_run : fill call ≡ some filled
unfolding fill put lookup
fill_run = refl

-- A hash, a tag and a dictionary with both.
hash_run : unmarshal_block hexutil (str (hexutil.encode_hash true)) ≡ ok (of_hash true)
unfolding unmarshal_block byte_length
hash_run = refl

tag_run : unmarshal_block hexutil (str "safe") ≡ ok (of_number safe)
unfolding unmarshal_block
tag_run = refl

latest_once : (number (of_number {H = Bool} safe)).1 ≡ true
unfolding number
latest_once = refl
