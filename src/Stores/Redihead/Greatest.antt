-- ===== src/Stores/Redihead/Greatest.antt =====
-- The head of a chain in svc/node/stores/headstores/redihead/module.go is the greatest that was read.
use Prim.Native.Nat.{max}
use venn.Prelude.{
  ℕ, ◌≡◌, refl, String, Bool, true, false, List, [], ◌∷◌, ◌++◌, arith, str_eq, str_eq_iff,
  if◌then◌else◌,
}
use venn.Prelude.Maps.{lookup-insert}
use venn.Rpc.{Result, ok, err}
use venn.Stores.Redihead.{
  Redihead, current, set_head, Event, message, message_error, closed, done, consume, run, start,
}

-- The messages that a run reads, in order.
abbrev pub messages_of : List Event → List (String × ℕ)
messages_of [] = []
messages_of (message name head ∷ events) = (name, head) ∷ messages_of events
messages_of (message_error ∷ events) = messages_of events
messages_of (closed ∷ events) = messages_of events
messages_of (done ∷ events) = []

abbrev pub last_of : Result (List (String × ℕ)) → List Event → List (String × ℕ)
last_of (err e) events = []
last_of (ok []) events = messages_of events
last_of (ok (m ∷ ms)) events = m ∷ messages_of events

abbrev pub read : List (Result (List (String × ℕ)) × List Event) → List (String × ℕ)
read [] = []
read ((latest, events) ∷ runs) = last_of latest events ++ read runs

abbrev pub greatest : String → List (String × ℕ) → ℕ → ℕ
greatest name [] h = h
greatest name ((chain, head) ∷ messages) h =
    let rest = greatest name messages h in if str_eq chain name then max head rest else rest

-- The state after the messages, one after the other.
abbrev set_heads : List (String × ℕ) → Redihead → Redihead
set_heads [] t = t
set_heads ((name, head) ∷ messages) t = set_heads messages (set_head name head t)

set_head-current :
    (chain name : String) (head : ℕ) (t : Redihead)
    → current name (set_head chain head t)
      ≡ (if str_eq chain name then max head (current name t) else current name t)
unfolding set_head current
set_head-current chain name head t =
    ground (arith, str_eq_iff chain name, lookup-insert chain name head t.head)

greatest-max :
    (name : String) (messages : List (String × ℕ)) (v h : ℕ)
    → greatest name messages (max v h) ≡ max v (greatest name messages h)
greatest-max name [] v h = refl
greatest-max name ((chain, head) ∷ messages) v h =
    let rec = greatest-max name messages v h in ground arith

greatest-if :
    (same : Bool) (name : String) (messages : List (String × ℕ)) (v h : ℕ)
    → greatest name messages (if same then max v h else h)
      ≡ (if same then max v (greatest name messages h) else greatest name messages h)
greatest-if true name messages v h = greatest-max name messages v h
greatest-if false name messages v h = refl

set_heads-current :
    (name : String) (messages : List (String × ℕ)) (t : Redihead)
    → current name (set_heads messages t) ≡ greatest name messages (current name t)
set_heads-current name [] t = refl
set_heads-current name ((chain, head) ∷ messages) t =
    rw (set_heads-current name messages (set_head chain head t), set_head-current chain name head t)
      (greatest-if (str_eq chain name) name messages head (current name t))

set_heads-append :
    (l r : List (String × ℕ)) (t : Redihead) → set_heads (l ++ r) t ≡ set_heads r (set_heads l t)
set_heads-append [] r t = refl
set_heads-append ((name, head) ∷ l) r t = set_heads-append l r (set_head name head t)

consume-set_heads :
    (events : List Event) (t : Redihead) → consume events t ≡ set_heads (messages_of events) t
unfolding consume
consume-set_heads [] t = refl
consume-set_heads (message name head ∷ events) t = consume-set_heads events (set_head name head t)
consume-set_heads (message_error ∷ events) t = consume-set_heads events t
consume-set_heads (closed ∷ events) t = consume-set_heads events t
consume-set_heads (done ∷ events) t = refl

run-set_heads :
    (latest : Result (List (String × ℕ))) (events : List Event) (t : Redihead)
    → run latest events t ≡ set_heads (last_of latest events) t
unfolding run
run-set_heads (err e) events t = refl
run-set_heads (ok []) events t = consume-set_heads events t
run-set_heads (ok ((name, head) ∷ ms)) events t = consume-set_heads events (set_head name head t)

start-set_heads :
    (runs : List (Result (List (String × ℕ)) × List Event)) (t : Redihead)
    → start runs t ≡ set_heads (read runs) t
unfolding start
start-set_heads [] t = refl
start-set_heads ((latest, events) ∷ runs) t =
    rw (set_heads-append (last_of latest events) (read runs) t, ← run-set_heads latest events t)
      (start-set_heads runs (run latest events t))

-- However often the stream is read again, whatever errors come between the messages and in whatever
-- order they come, the head of each chain is the greatest one of its head before and of all that was
-- read for that chain: a message that is old or comes twice changes nothing.
pub start-current :
    (name : String) (runs : List (Result (List (String × ℕ)) × List Event)) (t : Redihead)
    → current name (start runs t) ≡ greatest name (read runs) (current name t)
start-current name runs t = rw (start-set_heads runs t) (set_heads-current name (read runs) t)
