-- ===== src/Subscriptions.antt =====
-- svc/node/atoms/subcenter/component.go: `eth_subscribe` from the head store. A subscription is a loop over the
-- events that its `select` can take.
pub mod Ranges
pub mod Delivered
use venn.Prelude.{
  ℕ, zero, suc, ◌+◌, ◌-◌, String, Bool, true, false, not, Option, none, some, List, [], ◌∷◌, ◌++◌,
  if◌then◌else◌, str_eq,
}
use venn.Rpc.{
  Json, null, bool, str, arr, obj, Items, nil, cons, Fields, end, field, to_list, raw_list, Error,
  plain, invalid_request, invalid_params, decode_error, Chain, Request, Reply, sent, failed,
  no_chain, Value, text, Handler, Hexutil, Result, ok, err, do_raw,
}
use venn.Ethtypes.BlockNumber.{to_int64}
use venn.Ethtypes.Filter.{
  FilterQuery, empty_query, marshal_query, key_is, set_addresses, set_topics, decode_addresses,
  decode_topics,
}
use venn.Middlewares.Blocks.{remove_transactions}

abbrev pub err_unsupported : Error
err_unsupported = record (plain "notifications not supported") { unsupported = true }

-- What `select` takes: a head from the store, or the end of the context or of the notifier.
pub data Event : Type 0 where
  head : ℕ → Event
  closed : Event

module _ (hex : Hexutil) where
  -- A `SubscriptionFilterQuery` is kept in a query without blocks.
  abbrev pub Filter : Type 0
  Filter = FilterQuery hex.Address hex.Hash

  pub data Subscription : Type 0 where
    new_heads : Subscription
    logs : Filter → Subscription

  unfoldable pub scan_filter : Fields → Filter → Option Filter
  scan_filter end q = some q
  scan_filter (field k v fs) q =
      let as_addresses : Option Filter = elim (set_addresses (decode_addresses hex v) q) [
        | none ↦ none
        | some q' ↦ scan_filter fs q'
      ] in
      let as_topics : Option Filter = elim (set_topics (decode_topics hex v) q) [
        | none ↦ none
        | some q' ↦ scan_filter fs q'
      ] in
      let rest = scan_filter fs q in
      if key_is "address" k then as_addresses else if key_is "topics" k then as_topics else rest

  unfoldable pub read_filter : Json → Option Filter
  unfolding scan_filter
  read_filter null = some empty_query
  read_filter (obj fs) = scan_filter fs empty_query
  read_filter _ = none

  -- `json.Unmarshal` into a string that is empty before.
  abbrev pub read_method : Json → Option String
  read_method (str s) = some s
  read_method null = some ""
  read_method _ = none

  abbrev pub filter_param : List Json → Result Subscription
  filter_param (j ∷ []) = elim (read_filter j) [
    | none ↦ err (invalid_params decode_error.text)
    | some q ↦ ok (logs q)
  ]
  filter_param _ = err (invalid_params "expected 1 parameter")

  unfoldable pub choose : String → List Json → Result Subscription
  unfolding read_filter
  choose method params =
      if str_eq method "newHeads"
      then ok new_heads
      else if str_eq method "logs"
      then filter_param params
      else err (invalid_request "unknown subscription method")

  module _ {S : Type 0} (get : Chain → S → Result ℕ) where
    abbrev pub with_current : Result ℕ → Result Subscription → Result (ℕ × Subscription)
    with_current (err e) sub = err e
    with_current (ok current) (err e) = err e
    with_current (ok current) (ok sub) = ok (current, sub)

    abbrev pub read_params : Chain → Option (List Json) → S → Result (ℕ × Subscription)
    read_params chain none s = err decode_error
    read_params chain (some []) s = err (invalid_params "expected at least one param")
    read_params chain (some (j ∷ params)) s = elim (read_method j) [
      | none ↦ err decode_error
      | some method ↦ with_current (get chain s) (choose method params)
    ]

    -- The checks of `eth_subscribe`, up to the answer with the subscription's id. `notifies` says
    -- that the context has a notifier.
    unfoldable pub subscribe : Bool → Request → S → Result (ℕ × Subscription)
    unfolding choose
    subscribe notifies r s = elim r.chain [
      | none ↦ err no_chain
      | some chain ↦
          if not chain.parsed_stalk
          then err (invalid_request "chain does not support subscriptions")
          else if not notifies
          then err err_unsupported
          else read_params chain (raw_list r.params) s
    ]

  -- `notify` is `notifier.Notify`, false for an error.
  module _ {S : Type 0} (next : Handler S) (chain : Chain) (notify : Json → S → Bool × S) where
    abbrev pub number_args : ℕ → Json
    number_args i = arr (cons (str (hex.encode_uint64 i)) (cons (bool false) nil))

    -- The notifications that are tried, and the state after them.
    abbrev pub Sent : Type 0
    Sent = List Json × S

    abbrev pub before : Json → Sent → Sent
    before j (js, s) = (j ∷ js, s)

    -- After a notification that fails the loop is left.
    abbrev pub notified : Json → S → (S → Sent) → Sent
    notified j s rest =
        let (fine, s') = notify j s in
        let later = rest s' in before j (if fine then later else ([], s'))

    abbrev pub on_block : Result Json → S → (S → Sent) → Sent
    on_block (err e) s rest = rest s
    on_block (ok block) s rest = elim (remove_transactions block) [
      | none ↦ rest s
      | some j ↦ notified j s rest
    ]

    -- `for i := current + 1; i <= head; i++`, with `m` rounds left.
    unfoldable pub send_blocks : ℕ → ℕ → S → Sent
    send_blocks zero i s = ([], s)
    send_blocks (suc m) i s =
        let (block, s') = do_raw hex next (some chain) "eth_getBlockByNumber" (number_args i) s in
        on_block block s' (send_blocks m (suc i))

    unfoldable pub send_logs : Items → S → Sent
    send_logs nil s = ([], s)
    send_logs (cons log rest) s = notified log s (send_logs rest)

    abbrev pub logs_args : Filter → ℕ → ℕ → Json
    logs_args q from to = arr (
        cons
          (marshal_query hex
            (record q { from_block = some (to_int64 from); to_block = some (to_int64 to) }))
          nil)

    abbrev pub with_head : ℕ → Sent → Sent × ℕ
    with_head n sends = (sends, n)

    -- Where the logs are not got, the next head asks for them again.
    abbrev pub on_logs : ℕ → ℕ → Result Json → S → Sent × ℕ
    on_logs current n (ok (arr items)) s = (send_logs items s, n)
    on_logs current n _ s = (([], s), current)

    -- One head from the store.
    unfoldable pub on_head : Subscription → ℕ → ℕ → S → Sent × ℕ
    unfolding send_blocks send_logs
    on_head new_heads current n s = (send_blocks (n - current) (suc current) s, n)
    on_head (logs q) current n s =
        let (answer, s') =
          do_raw hex next (some chain) "eth_getLogs" (logs_args q (suc current) n) s in
        on_logs current n answer s'

    -- The loop of a subscription. It ends with the context or the notifier.
    unfoldable pub run : Subscription → List Event → ℕ → S → Sent × ℕ
    unfolding on_head
    run sub [] current s = (([], s), current)
    run sub (closed ∷ events) current s = (([], s), current)
    run sub (head n ∷ events) current s =
        let ((js, s'), current') = on_head sub current n s in
        let ((later, s''), last) = run sub events current' s' in ((js ++ later, s''), last)
