-- ===== src/Rpc/Exchange.antt =====
-- Requests, replies, handlers and middlewares. A handler runs in a state of its own: it maps a
-- request and the state to the calls of `w.Send` that it makes, in order, and the next state.
use venn.Prelude.{ℕ, String, Bool, List, [], ◌∷◌, Option, none, some}
use venn.Prelude.Int.{ℤ}
use venn.Rpc.Documents.{Json, Params}
use venn.Rpc.Errors.{Error, plain}

-- The fields of config.Chain that the handlers read. Durations are in nanoseconds.
pub record Chain : Type 0 where
  pub name : String
  pub id : ℤ
  pub max_block_lookback : ℤ
  pub block_time : ℕ
  pub parsed_stalk : Bool
  pub forge_block_receipts : Bool

pub record Request : Type 0 where
  pub method : String
  pub params : Params
  -- the value of `subctx.GetChain(r.Context())`, or its error
  pub chain : Option Chain

-- The first argument of `w.Send`: nil, a raw message, a `hexutil.Uint64` or a string.
pub data Value : Type 0 where
  nothing : Value
  raw : Json → Value
  quantity : ℕ → Value
  text : String → Value

pub record Reply : Type 0 where
  pub result : Value
  pub error : Option Error

abbrev pub sent : Value → Reply
sent v = record { result = v; error = none }

abbrev pub failed : Error → Reply
failed e = record { result = Value.nothing; error = some e }

abbrev pub Handler {ℓ} : Type ℓ → Type ℓ
Handler S = Request → S → List Reply × S

-- `jrpcutil.Interceptor`: each `Send` overwrites both fields.
unfoldable pub intercept : Reply → List Reply → Reply
intercept r [] = r
intercept r (s ∷ sends) = intercept s sends

-- `var icept jrpcutil.Interceptor`
abbrev pub fresh : Reply
fresh = sent Value.nothing

-- The error of `subctx.GetChain` where the context has no chain.
abbrev pub no_chain : Error
no_chain = plain "no chain specified"
