-- ===== src/Stores/Redihead.antt =====
-- svc/node/stores/headstores/redihead/module.go: the heads that the nodes share over a stream in Redis.
pub mod Greatest
use venn.Prelude.{
  ℕ, String, Bool, true, false, Option, none, some, List, [], ◌∷◌, ◌++◌, leb, get_elem?, set,
  length, if◌then◌else◌,
}
use venn.Prelude.Maps.{lookup, insert}
use venn.Rpc.{Chain, Error, Result, ok, err}
use venn.Stores.Head.{Channel, or_zero, or_empty, offer_all, remove, contains, close_at}

-- The channels stand at the numbers that `next` gave them, and `subs` has the numbers of a chain's
-- subscribers.
pub record Redihead : Type 0 where
  pub head : List (String × ℕ)
  pub subs : List (String × List ℕ)
  pub channels : List Channel

-- `New`, with a Redis
abbrev pub new_redihead : Redihead
new_redihead = record { head = []; subs = []; channels = [] }

unfoldable pub current : String → Redihead → ℕ
current name t = or_zero (lookup name t.head)

-- `Get`
unfoldable pub get : Chain → Redihead → Result ℕ
get chain t = ok (current chain.name t)

-- `Put`, with `add` for the stream: the head that the chain has here, and what the stream answers. The heads
-- change when the message comes back.
unfoldable pub put :
    {S : Type 0}
    → (String → ℕ → S → Option Error × S)
    → Chain
    → ℕ
    → Redihead
    → S
    → (ℕ × Option Error) × S
put add chain head t s =
    let (refused, s') = add chain.name head s in ((current chain.name t, refused), s')

-- `setHead`
unfoldable pub set_head : String → ℕ → Redihead → Redihead
set_head name head t =
    let channels = offer_all head (or_empty (lookup name t.subs)) t.channels in
    if leb head (current name t)
    then t
    else record t { head = insert name head t.head; channels = channels }

-- What the select in `consume` meets.
pub data Event : Type 0 where
  message : String → ℕ → Event
  message_error closed done : Event

-- `for consume()`: a closed consumer is made again.
unfoldable pub consume : List Event → Redihead → Redihead
unfolding set_head
consume [] t = t
consume (message name head ∷ events) t = consume events (set_head name head t)
consume (message_error ∷ events) t = consume events t
consume (closed ∷ events) t = consume events t
consume (done ∷ events) t = t

-- `run`, with the answer for the last message of the stream.
unfoldable pub run : Result (List (String × ℕ)) → List Event → Redihead → Redihead
unfolding consume
run (err e) events t = t
run (ok []) events t = consume events t
run (ok ((name, head) ∷ messages)) events t = consume events (set_head name head t)

-- `start`
unfoldable pub start : List (Result (List (String × ℕ)) × List Event) → Redihead → Redihead
unfolding run
start [] t = t
start ((latest, events) ∷ runs) t = start runs (run latest events t)

-- `On`: the state after it, and the channel's number.
unfoldable pub on : Chain → Redihead → Redihead × ℕ
on chain t =
    let id = length t.channels in
    let ids = or_empty (lookup chain.name t.subs) in
    (
      record t {
        subs = insert chain.name (id ∷ ids) t.subs;
        channels = t.channels ++ (record { buffer = none; closed = false } ∷ []);
      },
      id,
    )

-- The function that `On` returns.
unfoldable pub cancel : Chain → ℕ → Redihead → Redihead
cancel chain id t =
    let ids = or_empty (lookup chain.name t.subs) in
    if contains id ids
    then record t {
      subs = insert chain.name (remove id ids) t.subs;
      channels = close_at id t.channels;
    }
    else t
