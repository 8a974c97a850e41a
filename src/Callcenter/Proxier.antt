-- ===== src/Callcenter/Proxier.antt =====
-- lib/callcenter/proxier.go: the connection to a remote, over the connections of the package jrpc. Cn is a
-- connection, and the subscription itself, once it is made, runs beside the handler.
use venn.Prelude.{
  ◌≡◌, refl, String, Bool, false, not, Option, none, some, List, [], ◌∷◌, ◌++◌, length,
  if◌then◌else◌,
}
use venn.Rpc.{Json, Error, Request, Handler, Reply, Value, failed, Result, ok, err}
use venn.Subscriptions.{err_unsupported}

abbrev pub is_open : {Cn S : Type 0} → (Cn → S → Bool) → Option Cn → S → Bool
is_open is_closed none s = false
is_open is_closed (some c) s = not (is_closed c s)

-- `connect` dials and upgrades; `subscribe` and `do_raw` are the connection's; `subscribes` tests for the
-- suffix, and `has_notifier` whether the request came over a connection that can be notified.
module _ {Cn S : Type 0} (is_closed : Cn → S → Bool) (connect : S → Result Cn × S)
    (subscribes : String → Bool) (has_notifier : Bool)
    (subscribe : Cn → Request → S → Option Error × S)
    (do_raw : Cn → Request → S → (Json × Option Error) × S) where
  abbrev pub reply_to : (Json × Option Error) × S → List Reply × S
  reply_to ((result, e), s) = (record { result = Value.raw result; error = e } ∷ [], s)

  abbrev pub on_subscribed : Option Error × S → List Reply × S
  on_subscribed (none, s) = ([], s)
  on_subscribed (some e, s) = (failed e ∷ [], s)

  abbrev pub no_notifier : List Reply × S → List Reply × S
  no_notifier (replies, s) =
      ((if has_notifier then [] else failed err_unsupported ∷ []) ++ replies, s)

  abbrev pub on_conn : Request → Cn → S → List Reply × (Option Cn × S)
  on_conn r c s =
      let (replies, s') =
        if subscribes r.method
        then no_notifier (on_subscribed (subscribe c r s))
        else reply_to (do_raw c r s) in
      (replies, (some c, s'))

  abbrev pub on_connect : Request → Result Cn × S → List Reply × (Option Cn × S)
  on_connect r (err e, s) = (failed e ∷ [], (none, s))
  on_connect r (ok c, s) = on_conn r c s

  abbrev pub on_open : Request → Option Cn → S → List Reply × (Option Cn × S)
  on_open r none s = on_connect r (connect s)
  on_open r (some c) s = on_conn r c s

  -- `Proxier.ServeRPC`, in the state of `T.conn`
  unfoldable pub serve : Handler (Option Cn × S)
  serve r (conn, s) = on_open r (if is_open is_closed conn s then conn else none) s

  on_connect-call :
      (r : Request) (x : Result Cn × S)
      → subscribes r.method ≡ false
      → length ((on_connect r x).0) ≡ 1
  on_connect-call r (err e, s) h = refl
  on_connect-call r (ok c, s) h = rw h refl

  on_open-call :
      (r : Request) (conn : Option Cn) (s : S)
      → subscribes r.method ≡ false
      → length ((on_open r conn s).0) ≡ 1
  on_open-call r (some c) s h = rw h refl
  on_open-call r none s h = on_connect-call r (connect s) h

  -- A call that is no subscription is answered once, also where there is no connection to be had.
  serve-call :
      (r : Request) (conn : Option Cn) (s : S)
      → subscribes r.method ≡ false
      → length ((serve r (conn, s)).0) ≡ 1
  unfolding serve
  serve-call r conn s h = on_open-call r (if is_open is_closed conn s then conn else none) s h
