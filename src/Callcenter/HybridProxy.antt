-- ===== src/Callcenter/HybridProxy.antt =====
-- lib/callcenter/hybridproxy.go: the proxy of the gateway, over the connections of the packages jrpc and
-- websocket. `Cn` is a connection, S the state of the program.
pub mod Pool
pub mod Delivered
use venn.Prelude.{
  ℕ, zero, suc, String, Bool, true, false, not, Option, none, some, List, [], ◌∷◌, leb, ◌==◌,
  str_eq, if◌then◌else◌,
}
use venn.Subscriptions.{err_unsupported}
use venn.Rpc.{Json, Error, Request, Handler, Reply, Value, sent, failed, Result, ok, err}

pub record SocketPoolConn (Cn : Type 0) : Type 0 where
  pub id : ℕ
  pub conn : Cn

-- The map from the ids is a list of its entries.
pub record SocketPool (Cn : Type 0) : Type 0 where
  pub pool : List (SocketPoolConn Cn)
  pub size : ℕ
  pub next_id : ℕ

unfoldable pub new_socket_pool : {Cn : Type 0} → ℕ → SocketPool Cn
new_socket_pool size = record { pool = []; size = size; next_id = 0 }

module _ {Cn : Type 0} where
  unfoldable pub find : ℕ → List (SocketPoolConn Cn) → Option (SocketPoolConn Cn)
  find id [] = none
  find id (c ∷ pool) = let later = find id pool in if c.id == id then some c else later

  unfoldable pub store : SocketPoolConn Cn → List (SocketPoolConn Cn) → List (SocketPoolConn Cn)
  store c [] = c ∷ []
  store c (d ∷ pool) = let later = store c pool in if d.id == c.id then c ∷ pool else d ∷ later

  -- `if p.nextId >= p.size { p.nextId = 0 }`
  abbrev pub wrap : SocketPool Cn → SocketPool Cn
  wrap p = if leb p.size p.next_id then record p { next_id = 0 } else p

module _ {Cn S : Type 0} where
  abbrev pub on_dial :
      SocketPool Cn → Result Cn × S → Result (SocketPoolConn Cn) × (SocketPool Cn × S)
  on_dial p (err e, s) = (err e, (p, s))
  on_dial p (ok conn, s) = (
    ok (record { id = p.next_id; conn = conn }),
    (
      record p {
        pool = store (record { id = p.next_id; conn = conn }) p.pool;
        next_id = suc p.next_id;
      },
      s,
    ),
  )

module _ {Cn S : Type 0} (is_closed : Cn → S → Bool) (dialer : S → Result Cn × S) where
  abbrev pub on_slot :
      Option (SocketPoolConn Cn)
      → SocketPool Cn
      → S
      → Result (SocketPoolConn Cn) × (SocketPool Cn × S)
  on_slot none p s = on_dial p (dialer s)
  on_slot (some c) p s =
      let redialled = on_dial p (dialer s) in
      if is_closed c.conn s then redialled else (ok c, (record p { next_id = suc p.next_id }, s))

  -- `get`, under its mutex: every path through the loop returns.
  unfoldable pub get : SocketPool Cn → S → Result (SocketPoolConn Cn) × (SocketPool Cn × S)
  unfolding find store
  get p s = on_slot (find (wrap p).next_id (wrap p).pool) (wrap p) s

-- `handleHttp`; `do_raw` is `Do` of the connection, with the raw result and the error.
unfoldable pub handle_http : {S : Type 0} → (Request → S → (Json × Option Error) × S) → Handler S
handle_http do_raw r s =
    let ((result, e), s') = do_raw r s in (record { result = Value.raw result; error = e } ∷ [], s')

-- What a turn of the loop of `handleEthSubscription` meets: whether the request or its notifier has ended,
-- the errors of the three steps, and what is heard, each with whether it can be passed on.
pub record Turn : Type 0 where
  pub ended : Bool
  pub socket : Option Error
  pub upgrade : Option Error
  pub subscribe : Option Error
  pub heard : List (Json × Bool)

pub data Effect : Type 0 where
  slept : Effect
  replied : Error → Effect
  notified : Json → Effect

-- The inner loop: after a failed notification nothing more is read.
unfoldable pub listen : List (Json × Bool) → List Effect → List Effect
listen [] rest = rest
listen ((j, passes) ∷ heard) rest =
    let more = listen heard rest in notified j ∷ (if passes then more else rest)

abbrev pub if_first : Bool → Error → List Effect → List Effect
if_first first e rest = if first then replied e ∷ [] else rest

abbrev pub after_sleep : Bool → List Effect → List Effect
after_sleep first rest = if first then rest else slept ∷ rest

abbrev pub on_subscribe : Bool → Turn → List Effect → List Effect
on_subscribe first t rest = elim t.subscribe [
  | some e ↦ if_first first e rest
  | none ↦ listen t.heard rest
]

abbrev pub on_upgrade : Bool → Turn → List Effect → List Effect
on_upgrade first t rest = elim t.upgrade [
  | some e ↦ replied e ∷ []
  | none ↦ on_subscribe first t rest
]

abbrev pub on_socket : Bool → Turn → List Effect → List Effect
on_socket first t rest = elim t.socket [
  | some e ↦ if_first first e rest
  | none ↦ on_upgrade first t rest
]

-- The loop over its turns: after a first turn it goes on only where that one has subscribed.
unfoldable pub turns : Bool → List Turn → List Effect
unfolding listen
turns first [] = []
turns first (t ∷ ts) =
    let rest = turns false ts in if t.ended then [] else after_sleep first (on_socket first t rest)

-- `handleEthSubscription`, with whether the request has a notifier
unfoldable pub handle_eth_subscription : Bool → List Turn → List Effect
unfolding turns
handle_eth_subscription has_notifier ts =
    if has_notifier then turns true ts else replied err_unsupported ∷ []

-- `NewHybridProxy`: the first "http" of the address becomes "ws", by `strings.Replace` with the count 1.
unfoldable pub websocket_base_url : (String → String → String → ℕ → String) → String → String
websocket_base_url replace base_url = replace base_url "http" "ws" 1

-- The handler of `EndpointHandler`: what runs for a subscription, and otherwise `handle_http`.
unfoldable pub endpoint_handler :
    {S : Type 0} → Handler S → (Request → S → (Json × Option Error) × S) → Handler S
unfolding handle_http
endpoint_handler subscription do_raw r s =
    let over_http = handle_http do_raw r s in
    let over_socket = subscription r s in
    if str_eq r.method "eth_subscribe" then over_socket else over_http
