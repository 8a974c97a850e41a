-- ===== src/Middlewares/HeadReplacer/Latest.antt =====
-- What svc/node/middlewares/headreplacer/headreplacer.go makes of the tag `latest`.
use Prim.Native.String.{◌++◌ as ◌⧺◌}
use venn.Prelude.{
  ℕ, zero, suc, ◌+◌, ◌^◌, ◌<◌, ◌≡◌, ◌≢◌, refl, ap, ◌∙◌, Option, none, some, List, [], ◌∷◌, arith,
  get_elem?, set, length, Bool-cases, ◌==◌, if◌then◌else◌, inl, inr,
}
use venn.Prelude.Int.{eqb_ℤ, ℤ, pos}
use venn.Prelude.Decimal.{itoa}
use venn.Rpc.{
  invalid_params, no_chain, Json, arr, nil, cons, to_list, of_list, Params, absent, doc, raw_list,
  Chain, Request, Hexutil, Result, ok, err,
}
use venn.Ethtypes.BlockNumber.{latest, unmarshal, marshal_block, to_int64}
use venn.Ethtypes.BlockNumber.RoundTrip.{unmarshal-marshal_block}
use venn.Ethtypes.Filter.{FilterQuery, decode_query, marshal_query}
use venn.Ethtypes.Filter.RoundTrip.{decode-marshal_query}
use venn.Middlewares.HeadReplacer.{
  replace_decoded, or_latest, to_numeric, with_number, replace_listed, replace, both_numbers,
  replace_range,
}

to_list-of_list : (js : List Json) → to_list (of_list js) ≡ js
unfolding to_list of_list
to_list-of_list [] = refl
to_list-of_list (j ∷ js) = ap (λ (r : List Json). j ∷ r) (to_list-of_list js)

get_elem?-lt : (js : List Json) (i : ℕ) (j : Json) → get_elem? js i ≡ some j → i < length js
get_elem?-lt [] i j h = ground arith
get_elem?-lt (x ∷ js) zero j h = omega arith
get_elem?-lt (x ∷ js) (suc i) j h = omega (arith, get_elem?-lt js i j h)

module _ (hex : Hexutil) {S : Type 0} (get : Chain → S → Result ℕ) where
  to_numeric-latest :
      (c : Chain) (s : S) (head : ℕ)
      → get c s ≡ ok head
      → 0 < head
      → head < 2 ^ 63
      → to_numeric get c latest s ≡ ok (some (pos head))
  unfolding to_numeric
  to_numeric-latest c s head g p h = ground arith

  to_numeric-other : (c : Chain) (s : S) (bn : ℤ) → bn ≢ latest → to_numeric get c bn s ≡ ok none
  unfolding to_numeric
  to_numeric-other c s bn n = ground arith

  unwrap :
      (r : Request) (c : Chain) (d : Json) (index : ℕ) (s : S)
      → r.chain ≡ some c
      → r.params ≡ doc d
      → replace hex get r index s ≡ replace_listed hex get r index c s (raw_list r.params)
  unfolding replace
  unwrap r c d index s rc rd =
      ap
        (λ (o : Option Chain). elim o [
          | none ↦ err no_chain
          | some chain ↦ elim r.params [
            | absent ↦ err (invalid_params "expected parameters")
            | _ ↦ replace_listed hex get r index chain s (raw_list r.params)
          ]
        ])
        rc
      ∙ ap
          (λ (o : Params). elim o [
            | absent ↦ err (invalid_params "expected parameters")
            | _ ↦ replace_listed hex get r index c s (raw_list r.params)
          ])
          rd

  decoded :
      (r : Request) (c : Chain) (params : List Json) (index : ℕ) (j : Json) (bn : ℤ) (s : S)
      → raw_list r.params ≡ some params
      → get_elem? params index ≡ some j
      → unmarshal hex j ≡ some bn
      → replace_listed hex get r index c s (raw_list r.params)
        ≡ with_number hex get r params index (to_numeric get c bn s)
  decoded r c params index j bn s rl rj u =
      ap (replace_listed hex get r index c s) rl
      ∙ ap
          (λ (o : Option Json). elim o [
            | none ↦
                err (invalid_params ("need at least " ⧺ itoa (pos (index + 1)) ⧺ " parameters"))
            | some j ↦ replace_decoded hex get r params index c s (unmarshal hex j)
          ])
          rj
      ∙ ap (replace_decoded hex get r params index c s) u

  -- Where a request has a chain and a list of parameters, its parameter at the index reads as
  -- `latest`, and the store answers with a head above 0 and below 2^63, the request that goes on
  -- differs only in its parameters: the one at the index reads as the head, and every other one is
  -- the old one.
  pub replace-latest :
      (r : Request) (c : Chain) (d : Json) (params : List Json) (index head : ℕ) (j : Json) (s : S)
      → r.chain ≡ some c
      → r.params ≡ doc d
      → raw_list r.params ≡ some params
      → get_elem? params index ≡ some j
      → unmarshal hex j ≡ some latest
      → get c s ≡ ok head
      → 0 < head
      → head < 2 ^ 63
      → (new : Json) × (replace hex get r index s
          ≡ ok (record r { params = doc (arr (of_list (set params index new))) }))
        × (unmarshal hex new ≡ some (pos head))
  unfolding replace
  replace-latest r c d params index head j s rc rd rl rj u g p h = (
    marshal_block hex (pos head),
    unwrap r c d index s rc rd
        ∙ decoded r c params index j latest s rl rj u
        ∙ ap (with_number hex get r params index) (to_numeric-latest c s head g p h),
    unmarshal-marshal_block hex (pos head) (omega arith) (omega arith),
  )

  -- Where a request has a chain and a list of parameters, and its parameter at the index reads as
  -- a block number other than `latest`, the request goes on as it came.
  pub replace-other :
      (r : Request) (c : Chain) (d : Json) (params : List Json) (index : ℕ) (j : Json) (bn : ℤ)
      (s : S)
      → r.chain ≡ some c
      → r.params ≡ doc d
      → raw_list r.params ≡ some params
      → get_elem? params index ≡ some j
      → unmarshal hex j ≡ some bn
      → bn ≢ latest
      → replace hex get r index s ≡ ok r
  replace-other r c d params index j bn s rc rd rl rj u n =
      unwrap r c d index s rc rd
      ∙ decoded r c params index j bn s rl rj u
      ∙ ap (with_number hex get r params index) (to_numeric-other c s bn n)

  range_open :
      (r : Request) (q : FilterQuery hex.Address hex.Hash) (c : Chain) (s : S)
      → q.block_hash ≡ none
      → replace_range hex get r q c s
        ≡ both_numbers hex get r q
            (to_numeric get c (or_latest q.from_block) s)
            (to_numeric get c (or_latest q.to_block) s)
  unfolding replace_range
  range_open r q c s e =
      ap
        (λ (o : Option hex.Hash). elim o [
          | some h ↦ ok r
          | none ↦
              both_numbers hex get r q (to_numeric get c (or_latest q.from_block) s)
                (to_numeric get c (or_latest q.to_block) s)
        ])
        e

  -- Where `eth_getLogs` asks for no block hash, its range starts and ends at `latest` or leaves
  -- them out, and the store answers with a head above 0 and below 2^63, the request that goes on
  -- asks for the range from the head to the head, and for the rest as before.
  pub replace_range-latest :
      (r : Request) (q : FilterQuery hex.Address hex.Hash) (c : Chain) (head : ℕ) (s : S)
      → q.block_hash ≡ none
      → or_latest q.from_block ≡ latest
      → or_latest q.to_block ≡ latest
      → get c s ≡ ok head
      → 0 < head
      → head < 2 ^ 63
      → (new : Json) × (replace_range hex get r q c s
          ≡ ok (record r { params = doc (arr (cons new nil)) }))
        × (decode_query hex new
            ≡ some (record q { from_block = some (pos head); to_block = some (pos head) }))
  replace_range-latest r q c head s e f t g p h =
      let n = to_numeric-latest c s head g p h in
      let q' = record q { from_block = some (pos head); to_block = some (pos head) } in
      (
        marshal_query hex q',
        range_open r q c s e
            ∙ ap
                (λ (bn : ℤ).
                  both_numbers hex get r q (to_numeric get c bn s)
                    (to_numeric get c (or_latest q.to_block) s))
                f
            ∙ ap
                (λ (bn : ℤ).
                  both_numbers hex get r q (to_numeric get c latest s) (to_numeric get c bn s))
                t
            ∙ ap (λ (n : Result (Option ℤ)). both_numbers hex get r q n n) n,
        decode-marshal_query hex q' (omega arith, omega arith) (omega arith, omega arith),
      )

  to_numeric-ok :
      (c : Chain) (s : S) (head : ℕ) (bn : ℤ)
      → get c s ≡ ok head
      → (n : Option ℤ) × (to_numeric get c bn s ≡ ok n)
  unfolding to_numeric
  to_numeric-ok c s head bn g = elim (Bool-cases (eqb_ℤ bn latest)) [
    | inl e ↦ (if head == 0 then none else some (to_int64 head), ground arith)
    | inr e ↦ (none, ground arith)
  ]

  -- Where `eth_getLogs` asks for no block hash, its range starts at a block other than `latest`,
  -- and the store answers with a head, the request goes on as it came: an end at `latest` stays.
  pub replace_range-mixed :
      (r : Request) (q : FilterQuery hex.Address hex.Hash) (c : Chain) (head : ℕ) (s : S)
      → q.block_hash ≡ none
      → or_latest q.from_block ≢ latest
      → get c s ≡ ok head
      → replace_range hex get r q c s ≡ ok r
  replace_range-mixed r q c head s e n g =
      let (to, t) = to_numeric-ok c s head (or_latest q.to_block) g in
      range_open r q c s e
      ∙ ap
          (λ (from : Result (Option ℤ)).
            both_numbers hex get r q from (to_numeric get c (or_latest q.to_block) s))
          (to_numeric-other c s (or_latest q.from_block) n)
      ∙ ap (both_numbers hex get r q (ok none)) t
