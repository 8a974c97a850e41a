-- ===== src/Callcenter/Validator/Replies.antt =====
-- What a client sees behind the validator (lib/callcenter/validator.go).
use venn.Prelude.{ℕ, ◌≤◌, ◌≡◌, ◌≢◌, Bool, none, [], ◌∷◌, arith}
use venn.Prelude.Maps.{str_eq-at}
use venn.Prelude.Int.{ℤ}
use venn.Rpc.{
  Request, malformed, quantity, Reply, Handler, intercept, fresh, Hexutil, Result, ok, err,
}
use venn.Callcenter.Validator.{
  Validator, update_head, is_latest, extract_block, update_with, answer_number, note_latest,
  block_by_number, block_number, never_null, serve,
}

update_head-le :
    (head : ℕ) (updated now : ℤ) (v : Validator) → v.head ≤ (update_head head updated now v).1.head
unfolding update_head
update_head-le head updated now v = ground arith

update_head-eq :
    (head : ℕ) (updated now : ℤ) (v : Validator)
    → (update_head head updated now v).0 ≡ none
    → (update_head head updated now v).1.head ≡ head
unfolding update_head
update_head-eq head updated now v h = ground arith

update_with-le :
    (b : Result (ℕ × ℤ)) (now : ℤ) (v : Validator) → v.head ≤ (update_with b now v).1.head
update_with-le (err e) now v = omega arith
update_with-le (ok (n, t)) now v = update_head-le n t now v

answer_number-le :
    (b : Result (ℕ × ℤ)) (now : ℤ) (v : Validator) → v.head ≤ (answer_number b now v).1.head
answer_number-le (err e) now v = omega arith
answer_number-le (ok (n, t)) now v = update_head-le n t now v

answer_number-eq :
    (b : Result (ℕ × ℤ)) (now : ℤ) (v : Validator) (n : ℕ)
    → (answer_number b now v).0 ≡ record { result = quantity n; error = none }
    → ((answer_number b now v).1.head ≡ n) × (v.head ≤ n)
answer_number-eq (err e) now v n h = ground arith
answer_number-eq (ok (m, t)) now v n h =
    ground (arith, update_head-eq m t now v, update_head-le m t now v)

module _ (hex : Hexutil) {S : Type 0} (clock : S → ℤ) (too_slow : S → Bool) (next : Handler S) where
  note_latest-le :
      (latest : Bool) (icept : Reply) (s : S) (v : Validator)
      → v.head ≤ (note_latest hex clock too_slow latest icept s v).1.head
  unfolding note_latest
  note_latest-le latest icept s v =
      ground (arith, update_with-le (extract_block hex icept.result) (clock s) v)

  block_number-le :
      (r : Request) (v : Validator) (s : S)
      → v.head ≤ (block_number hex clock too_slow next r (v, s)).1.0.head
  unfolding block_number
  block_number-le r v s = answer_number-le _ _ v

  block_by_number-le :
      (r : Request) (v : Validator) (s : S)
      → v.head ≤ (block_by_number hex clock too_slow next r (v, s)).1.0.head
  unfolding block_by_number
  block_by_number-le r v s =
      note_latest-le (is_latest r.params) (intercept fresh (next r s).0) (next r s).1 v

  -- Whatever the request and the answer, the head of a validator never goes back.
  pub serve-head-le :
      (r : Request) (v : Validator) (s : S)
      → v.head ≤ (serve hex clock too_slow next r (v, s)).1.0.head
  unfolding serve never_null
  serve-head-le r v s = ground (arith, block_number-le r v s, block_by_number-le r v s)

  routed :
      (r : Request) (v : Validator) (s : S)
      → r.method ≡ "eth_blockNumber"
      → r.params ≢ malformed
      → serve hex clock too_slow next r (v, s) ≡ block_number hex clock too_slow next r (v, s)
  unfolding serve
  routed r v s m p = ground (
    arith,
    str_eq-at r.method "eth_blockNumber" "eth_getBlockByNumber" m,
    str_eq-at r.method "eth_blockNumber" "eth_blockNumber" m,
  )

  block_number-eq :
      (r : Request) (v : Validator) (s : S) (n : ℕ)
      → (block_number hex clock too_slow next r (v, s)).0
        ≡ record { result = quantity n; error = none } ∷ []
      → ((block_number hex clock too_slow next r (v, s)).1.0.head ≡ n) × (v.head ≤ n)
  unfolding block_number
  block_number-eq r v s n h = answer_number-eq _ _ v n (ground arith)

  -- Where the parameters of a request `eth_blockNumber` are not malformed and the one reply is a
  -- number without an error, the number is the validator's head after the request, so it is not
  -- below any head that was seen before.
  pub serve-block_number :
      (r : Request) (v : Validator) (s : S) (n : ℕ)
      → r.method ≡ "eth_blockNumber"
      → r.params ≢ malformed
      → (serve hex clock too_slow next r (v, s)).0
        ≡ record { result = quantity n; error = none } ∷ []
      → ((serve hex clock too_slow next r (v, s)).1.0.head ≡ n) × (v.head ≤ n)
  serve-block_number r v s n m p h =
      rw (routed r v s m p) (block_number-eq r v s n (rw (routed r v s m p) at h))
