-- ===== src/Node/Stack.antt =====
-- svc/app/node/api.go: the middlewares of a node in their order, around the handler `below`, which is the cacher
-- over the clusters, for requests at which that does not panic. The engine of the subscriptions and
-- the waiter pass requests on.
use venn.Prelude.{
  ℕ, String, Bool, true, false, Option, none, some, List, [], ◌∷◌, str_eq, if◌then◌else◌, ◌≡◌, refl,
  length, arith,
}
use venn.Rpc.{
  intercept, Chain, Request, Params, Handler, Reply, Value, sent, failed, Hexutil, Result, ok, err,
}
use venn.Middlewares.HeadReplacer as HeadReplacer
use venn.Middlewares.Forger as Forger
use venn.Subscriptions.{Subscription, subscribe}
use venn.Gateway.Guards.{Context, Guarded, validate_method, with_identifier, limit_abuse}
use venn.Gateway.Guards.Replies.{One, with_identifier-One, limit_abuse-One}
use venn.Util.Text.{byte_length, contains}
use venn.Node.{Label, collect, identify}

module _ (hex : Hexutil) (dec : Discrete hex.Hash) {S : Type 0} (get : Chain → S → Result ℕ) where
  -- The reply of the subcenter: the error of its checks, or the identifier of the subscription, whose loop
  -- then runs beside the handler.
  abbrev pub on_subscription : Value → Result (ℕ × Subscription hex) → Reply
  on_subscription id (err e) = failed e
  on_subscription id (ok sub) = sent id

  -- `Subcenter.Middleware`
  unfoldable pub subcenter : Bool → Value → Handler S → Handler S
  unfolding subscribe
  subcenter notifies id next r s =
      let pass = next r s in
      let reply = on_subscription id (subscribe hex get notifies r s) in
      if str_eq r.method "eth_subscribe" then (reply ∷ [], s) else pass

  -- The forger asks the head replacer, and the head replacer what is below.
  unfoldable pub forged : Bool → Handler S → Handler S
  unfolding HeadReplacer.serve Forger.serve
  forged logs_first below = Forger.serve hex dec (HeadReplacer.serve hex get below) logs_first

-- The middlewares that depend on the configuration: the collector and the limit.
unfoldable pub with_collector :
    {S : Type 0} → Bool → (String → Bool) → Handler S → Handler (List Label × S)
unfolding collect
with_collector true subscribes next r t = collect subscribes next r t
with_collector false subscribes next r (labels, s) =
    let (sends, s') = next r s in (sends, (labels, s'))

unfoldable pub with_limit :
    {S : Type 0} → Option (String → ℕ → S → Result Bool × S) → Guarded S → Guarded S
unfolding limit_abuse
with_limit none next = next
with_limit (some allow) next = limit_abuse allow next

-- The tracing reads the name of the chain, and panics where there is none: the state `none` is that after a panic.
abbrev pub on_named : {S : Type 0} → Option Chain → List Reply × S → List Reply × Option S
on_named none pass = ([], none)
on_named (some chain) (sends, s) = (sends, some s)

unfoldable pub traced : {S : Type 0} → Guarded S → Guarded (Option S)
traced next c r none = ([], none)
traced next c r (some s) = on_named r.chain (next c r s)

-- The handler of `New`, with the validation outermost.
unfoldable pub node :
    (hex : Hexutil) (dec : Discrete hex.Hash)
    → {S : Type 0} → (Chain → S → Result ℕ)
    → Bool
    → Value
    → Bool
    → Bool
    → (String → Bool)
    → Option (String → ℕ → List Label × S → Result Bool × (List Label × S))
    → (String → Option String)
    → Handler S
    → Guarded (Option (List Label × S))
unfolding traced subcenter forged with_collector with_limit with_identifier validate_method identify
node hex dec get notifies id logs_first collecting subscribes limit split_host_port below =
    validate_method (
      traced (
        with_identifier (λ c. ok (some (identify split_host_port c.remote_addr)))
          (with_limit limit (λ c.
            with_collector collecting subscribes
              (subcenter hex dec get notifies id (forged hex dec get logs_first below))))))

collector-one :
    {S : Type 0} (subscribes : String → Bool) (next : Handler S) (r : Request) (t : List Label × S)
    → subscribes r.method ≡ false
    → length ((with_collector true subscribes next r t).0) ≡ 1
unfolding with_collector collect
collector-one subscribes next r (labels, s) h = rw h refl

with_limit-One :
    {S : Type 0} (limit : Option (String → ℕ → S → Result Bool × S)) (next : Guarded S)
    (r : Request)
    → One r next
    → One r (with_limit limit next)
unfolding with_limit
with_limit-One none next r one = one
with_limit-One (some allow) next r one = limit_abuse-One r allow next one

on_named-one :
    {S : Type 0} (o : Option Chain) (pass : List Reply × S) (chain : Chain)
    → o ≡ some chain
    → length pass.0 ≡ 1
    → length (on_named o pass).0 ≡ 1
on_named-one none pass chain h one = absurd (ground (arith, h))
on_named-one (some d) (sends, s) chain h one = one

traced-One :
    {S : Type 0} (next : Guarded S) (c : Context) (r : Request) (chain : Chain) (s : S)
    → r.chain ≡ some chain
    → One r next
    → length (traced next c r (some s)).0 ≡ 1
unfolding traced
traced-One next c r chain s h one = on_named-one r.chain (next c r s) chain h (one c s)

validated-one :
    {S : Type 0} (next : Guarded S) (c : Context) (r : Request) (s : S)
    → length (next c r s).0 ≡ 1
    → length (validate_method next c r s).0 ≡ 1
unfolding validate_method
validated-one next c r s h = ground arith

-- A node that has its collector replies exactly once to every request for a chain whose method is no
-- subscription, whatever its middlewares decide and however often the handlers below the collector send,
-- which do not panic.
pub node-replies :
    (hex : Hexutil) (dec : Discrete hex.Hash) {S : Type 0} (get : Chain → S → Result ℕ)
    (notifies : Bool) (id : Value) (logs_first : Bool) (subscribes : String → Bool)
    (limit : Option (String → ℕ → List Label × S → Result Bool × (List Label × S)))
    (split_host_port : String → Option String) (below : Handler S) (c : Context) (r : Request)
    (chain : Chain) (t : List Label × S)
    → r.chain ≡ some chain
    → subscribes r.method ≡ false
    → length (
        (node hex dec get notifies id logs_first true subscribes limit split_host_port below c r
          (some t)).0)
      ≡ 1
unfolding node
node-replies hex dec get notifies id logs_first subscribes limit split_host_port below c r chain t g
      h =
    let inner = subcenter hex dec get notifies id (forged hex dec get logs_first below) in
    let collected : Guarded _ = λ c'. with_collector true subscribes inner in
    let named = λ (c' : Context). ok (some (identify split_host_port c'.remote_addr)) in
    let limited : Guarded _ = with_limit limit collected in
    let one = with_limit-One limit collected r (λ c' t'. collector-one subscribes inner r t' h) in
    validated-one (traced (with_identifier named limited)) c r (some t) (
      traced-One (with_identifier named limited) c r chain t g
        (with_identifier-One r named limited one))

-- A node answers eth_blockNumber with the head in its store, and asks nothing below: the state changes by the
-- label of the collector only.
node-block_number :
    (hex : Hexutil) (dec : Discrete hex.Hash) {S : Type 0} (get : Chain → S → Result ℕ) (id : Value)
    (subscribes : String → Bool) (split_host_port : String → Option String) (below : Handler S)
    (c : Context) (params : Params) (chain : Chain) (labels : List Label) (s : S) (head : ℕ)
    → subscribes "eth_blockNumber" ≡ false
    → get chain s ≡ ok head
    → node hex dec get true id true true subscribes none split_host_port below c
        (record { method = "eth_blockNumber"; params = params; chain = some chain })
        (some (labels, s))
      ≡ (
        sent (Value.quantity head) ∷ [],
        some
            (record { chain = chain.name; method = "eth_blockNumber"; success = true } ∷ labels, s),
      )
unfolding node traced validate_method with_identifier with_limit with_collector collect subcenter
    forged Forger.serve HeadReplacer.serve byte_length contains intercept
node-block_number hex dec get id subscribes split_host_port below c params chain labels s head h e =
    rw (h, e) refl
