-- ===== src/Tests/Proxies.antt =====
-- The proxies and the goroutines of the stalker at concrete inputs.
use venn.Prelude.{
  ℕ, suc, ◌≡◌, refl, Bool, true, false, none, some, List, [], ◌∷◌, ◌==◌, ltb, arith, if◌then◌else◌,
  Option,
}
use venn.Prelude.Int.{pos, ℤ}
use venn.Rpc.{Json, str, null, plain, Result, ok, err, failed, Error, Handler}
use venn.Stores.Head.{Store}
use venn.Callcenter.HybridProxy.{new_socket_pool, find, store, get, Turn, handle_eth_subscription}
use venn.Callcenter.HybridProxy.Pool.{gets, gots, gets-cycle}
use venn.Callcenter.HybridProxy.Delivered.{notes, replies, handle_eth_subscription-delivers}
use venn.Callcenter.Proxier.{serve}
use venn.Stores.Redihead
use venn.Stores.Redihead.{Redihead, new_redihead}
use venn.Stalker.Loop.{Running, Event, new_trackers, stalked, run}
use venn.Stalker.Tracked.{Puts, run-some}
use venn.Tests.Hex.{hexutil}
use venn.Tests.Data.{mainnet, node, request}

-- A connection is the time at which it was dialled; at the time 3 nothing can be dialled, and from the time 10
-- on what was dialled before is closed.
abbrev closed : ℕ → ℕ → Bool
closed c s = if ltb s 10 then false else ltb c 10

abbrev dialer : ℕ → Result ℕ × ℕ
dialer s = (if s == 3 then err (plain "refused") else ok s, s)

abbrev times : List ℕ
times = 0 ∷ (3 ∷ (4 ∷ (5 ∷ (11 ∷ (12 ∷ [])))))

five_run : gots closed dialer (new_socket_pool 2) times ≡ 5
unfolding new_socket_pool get find store
five_run = refl

gets-cycle_run : gets closed dialer (new_socket_pool 2) times ≡ 0 ∷ (1 ∷ (0 ∷ (1 ∷ (0 ∷ []))))
gets-cycle_run = rw five_run at (gets-cycle closed dialer 2 times (omega arith))

abbrev fine : List (Json × Bool) → Turn
fine heard = record {
  ended = false;
  socket = none;
  upgrade = none;
  subscribe = none;
  heard = heard;
}

abbrev broken : Turn
broken = record {
  ended = false;
  socket = some (plain "refused");
  upgrade = none;
  subscribe = none;
  heard = [];
}

abbrev over : Turn
over = record { ended = true; socket = none; upgrade = none; subscribe = none; heard = [] }

abbrev later : List Turn
later = broken ∷ (fine ((str "b", true) ∷ []) ∷ (over ∷ []))

handle_eth_subscription-delivers_example :
    (replies (handle_eth_subscription true (fine ((str "a", true) ∷ []) ∷ later)) ≡ [])
    × (notes (handle_eth_subscription true (fine ((str "a", true) ∷ []) ∷ later))
        ≡ str "a" ∷ (str "b" ∷ []))
handle_eth_subscription-delivers_example =
    handle_eth_subscription-delivers (fine ((str "a", true) ∷ [])) later
      (refl, (refl, (refl, (refl, tt)))) refl

-- The remote refuses: the only reply is the error of the connection.
refused_run :
    (serve closed dialer
      (λ m. false)
      true
      (λ c r s. (none, s))
      (λ c r s. ((null, none), s))
      request
      (none, 3)).0
    ≡ failed (plain "refused") ∷ []
unfolding serve
refused_run = refl

abbrev to_result : ℕ × Option Error → Result ℕ
to_result (n, none) = ok n
to_result (n, some e) = err e

abbrev State : Type 0
State = Redihead × ℕ

-- The store over Redis, with a stream that counts what it is given.
abbrev over_redis : Store State
over_redis = record {
  get = λ c s. Redihead.get c s.0;
  put = λ c n s.
      let (r, stream) = Redihead.put (λ name head k. (none, suc k)) c n s.0 s.1 in
      some (to_result r, (s.0, stream));
}

abbrev clock : State → ℤ
clock s = pos s.1

over_redis-Puts : Puts hexutil clock over_redis
over_redis-Puts c n s = (_, refl)

-- Between the ticks a head comes back from the stream.
abbrev ticks : List (Event State)
ticks =
    record { which = 0; meanwhile = λ s. s; done_on_error = false; done_waiting = false }
    ∷ (record {
      which = 0;
      meanwhile = λ s. (Redihead.set_head "mainnet" 7 s.0, s.1);
      done_on_error = false;
      done_waiting = true;
    }
        ∷ [])

abbrev cluster : Handler State
cluster r (t, s) = let (sends, s') = node r s in (sends, (t, s'))

run-some_example :
    (r : Running State) × (run hexutil clock over_redis ticks (
      stalked (("mainnet", cluster) ∷ []) (mainnet ∷ []),
      (new_trackers (mainnet ∷ []), (new_redihead, 0)),
    )
      ≡ some r)
run-some_example =
    run-some hexutil clock over_redis (("mainnet", cluster) ∷ []) (mainnet ∷ []) ticks
      (new_redihead, 0) over_redis-Puts
