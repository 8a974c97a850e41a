-- ===== src/Rpc/Do.antt =====
-- lib/jrpcutil/do.go: a request of the program's own.
use venn.Prelude.{String, List, [], ◌∷◌, Option, none, some, ◌≡◌, refl, ◌⊎◌, inl, inr}
use venn.Rpc.Documents.{Json, null, str, doc}
use venn.Rpc.Errors.{Error}
use venn.Rpc.Exchange.{
  Chain, Request, Value, nothing, raw, quantity, text, Reply, Handler, intercept, fresh, failed,
}
use venn.Rpc.Hex.{Hexutil}

-- A result or an error.
pub data Result {ℓ} (A : Type ℓ) : Type ℓ where
  ok : A → Result A
  err : Error → Result A

-- A middleware that sends an error of its own, or calls the next handler once.
unfoldable pub forward {ℓ} : {S : Type ℓ} → Handler S → Result Request → S → List Reply × S
forward next (err e) s = (failed e ∷ [], s)
forward next (ok r) s = next r s

module _ (hex : Hexutil) where
  -- `sonic.Marshal(icept.Result)`: a raw message is its own document.
  unfoldable pub marshal : Value → Json
  marshal nothing = null
  marshal (raw j) = j
  marshal (quantity n) = str (hex.encode_uint64 n)
  marshal (text s) = str s

  -- `Do` into a `*json.RawMessage`. The arguments are given as the document that they marshal to.
  unfoldable pub do_raw {ℓ} :
      {S : Type ℓ} → Handler S → Option Chain → String → Json → S → Result Json × S
  unfolding marshal
  do_raw handler chain method args s =
      let (sends, s') = handler (record { method = method; params = doc args; chain = chain }) s in
      let icept = intercept fresh sends in
      elim icept.error [ some e ↦ (err e, s') | none ↦ (ok (marshal icept.result), s') ]

-- To split on a result and keep the equation.
pub Result-cases {ℓ} :
    {A : Type ℓ} (r : Result A) → ((e : Error) × (r ≡ err e)) ⊎ ((a : A) × (r ≡ ok a))
Result-cases (err e) = inl (e, refl)
Result-cases (ok a) = inr (a, refl)
