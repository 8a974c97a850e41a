-- ===== src/Stores/Head.antt =====
-- lib/stores/headstore: the head of each chain. `none` is a panic of the program.
pub mod Laws
use venn.Prelude.{
  ℕ, suc, ◌+◌, String, Bool, true, false, Option, none, some, List, [], ◌∷◌, ◌++◌, leb, ◌==◌,
  get_elem?, set, length, if◌then◌else◌, not,
}
use venn.Prelude.Maps.{lookup, insert}
use venn.Rpc.{Chain, Result, ok, err}

-- `Store`, for a program with the state S. Of `On` the readers use nothing.
pub record Store {ℓ} (S : Type ℓ) : Type ℓ where
  pub get : Chain → S → Result ℕ
  pub put : Chain → ℕ → S → Option (Result ℕ × S)

-- A channel that holds one head at most.
pub record Channel : Type 0 where
  pub buffer : Option ℕ
  pub closed : Bool

-- `heads` is none while the map is nil. The channels stand at the numbers that `next` gave them, and `subs`
-- has the numbers of a chain's subscribers.
pub record Atomic : Type 0 where
  pub heads : Option (List (String × ℕ))
  pub subs : List (String × List ℕ)
  pub channels : List Channel

-- `NewAtomic`
abbrev pub new_atomic : Atomic
new_atomic = record { heads = none; subs = []; channels = [] }

abbrev pub or_zero : Option ℕ → ℕ
or_zero none = 0
or_zero (some n) = n

abbrev pub or_empty : Option (List ℕ) → List ℕ
or_empty none = []
or_empty (some ids) = ids

-- `T.heads[name]`; a nil map has no entries.
unfoldable pub current : String → Atomic → ℕ
current name a = elim a.heads [ none ↦ 0 | some heads ↦ or_zero (lookup name heads) ]

-- `Get`
unfoldable pub get : Chain → Atomic → Result ℕ
get chain a = ok (current chain.name a)

-- `select { case sub <- head: default: }`
unfoldable pub offer : ℕ → Channel → Channel
offer head c = elim c.buffer [ none ↦ record c { buffer = some head } | some h ↦ c ]

abbrev offer_at : ℕ → ℕ → List Channel → List Channel
offer_at head id channels = elim (get_elem? channels id) [
  | none ↦ channels
  | some c ↦ set channels id (offer head c)
]

unfoldable pub offer_all : ℕ → List ℕ → List Channel → List Channel
unfolding offer
offer_all head [] channels = channels
offer_all head (id ∷ ids) channels = offer_all head ids (offer_at head id channels)

-- `Put`. Storing into a nil map panics.
unfoldable pub put : Chain → ℕ → Atomic → Option (Result ℕ × Atomic)
put chain head a =
    let cur = current chain.name a in
    let channels = offer_all head (or_empty (lookup chain.name a.subs)) a.channels in
    if leb head cur then some (ok cur, a) else elim a.heads [
      | none ↦ none
      | some heads ↦
          some
            (ok cur, record a { heads = some (insert chain.name head heads); channels = channels })
    ]

-- `On`: the state after it, and the channel's number.
unfoldable pub on : Chain → Atomic → Atomic × ℕ
on chain a =
    let id = length a.channels in
    let ids = or_empty (lookup chain.name a.subs) in
    (
      record a {
        subs = insert chain.name (id ∷ ids) a.subs;
        channels = a.channels ++ (record { buffer = none; closed = false } ∷ []);
      },
      id,
    )

unfoldable pub remove : ℕ → List ℕ → List ℕ
remove id [] = []
remove id (i ∷ ids) = let rest = remove id ids in if i == id then rest else i ∷ rest

unfoldable pub contains : ℕ → List ℕ → Bool
contains id [] = false
contains id (i ∷ ids) = let rest = contains id ids in if i == id then true else rest

abbrev pub close_at : ℕ → List Channel → List Channel
close_at id channels = elim (get_elem? channels id) [
  | none ↦ channels
  | some c ↦ set channels id (record c { closed = true })
]

-- The function that `On` returns: it acts once.
unfoldable pub cancel : Chain → ℕ → Atomic → Atomic
cancel chain id a =
    let ids = or_empty (lookup chain.name a.subs) in
    if contains id ids
    then record a {
      subs = insert chain.name (remove id ids) a.subs;
      channels = close_at id a.channels;
    }
    else a

abbrev pub atomic_store : Store Atomic
atomic_store = record { get = get; put = put }
