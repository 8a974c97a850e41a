-- ===== src/Callcenter/HybridProxy/Delivered.antt =====
-- What a subscription through lib/callcenter/hybridproxy.go passes on.
use venn.Prelude.{
  ◌≡◌, refl, ap, ◌∙◌, Bool, true, false, Option, none, some, List, [], ◌∷◌, ◌++◌, arith,
  if◌then◌else◌, Bool-cases, Option-cases, inl, inr,
}
use venn.Rpc.{Json, Error}
use venn.Callcenter.HybridProxy.{
  Turn, Effect, slept, replied, notified, listen, turns, handle_eth_subscription,
}

abbrev pub notes : List Effect → List Json
notes [] = []
notes (slept ∷ es) = notes es
notes (replied e ∷ es) = notes es
notes (notified j ∷ es) = j ∷ notes es

abbrev pub replies : List Effect → List Error
replies [] = []
replies (slept ∷ es) = replies es
replies (replied e ∷ es) = e ∷ replies es
replies (notified j ∷ es) = replies es

-- What is heard up to the first that cannot be passed on.
abbrev pub passed_on : List (Json × Bool) → List Json
passed_on [] = []
passed_on ((j, passes) ∷ heard) = j ∷ (if passes then passed_on heard else [])

abbrev pub is_none : Option Error → Bool
is_none none = true
is_none (some e) = false

-- The turns up to the end of the request, of which those that get a connection and subscribe are heard.
abbrev pub all_heard : List Turn → List Json
all_heard [] = []
all_heard (t ∷ ts) =
    if t.ended
    then []
    else (if is_none t.socket
        then if is_none t.subscribe then passed_on t.heard ++ all_heard ts else all_heard ts
        else all_heard ts)

-- The subscription package promises that a connection without an error can be upgraded.
abbrev pub Upgrades : List Turn → Type 0
Upgrades [] = Unit
Upgrades (t ∷ ts) = (t.upgrade ≡ none) × Upgrades ts

notes-listen :
    (heard : List (Json × Bool)) (rest : List Effect)
    → notes (listen heard rest) ≡ passed_on heard ++ notes rest
unfolding listen
notes-listen [] rest = refl
notes-listen ((j, passes) ∷ heard) rest =
    let rec = notes-listen heard rest in
    elim (Bool-cases passes) [ inl e ↦ rw e (ap (λ l. j ∷ l) rec) | inr e ↦ rw e refl ]

replies-listen :
    (heard : List (Json × Bool)) (rest : List Effect) → replies (listen heard rest) ≡ replies rest
unfolding listen
replies-listen [] rest = refl
replies-listen ((j, passes) ∷ heard) rest = let rec = replies-listen heard rest in ground arith

turns-later :
    (ts : List Turn)
    → Upgrades ts
    → (notes (turns false ts) ≡ all_heard ts) × (replies (turns false ts) ≡ [])
unfolding turns
turns-later [] u = (refl, refl)
turns-later (t ∷ ts) (ue, u) =
    let (n, r) = turns-later ts u in
    elim (Bool-cases t.ended) [
      | inl e ↦ rw e (refl, refl)
      | inr e ↦ rw e (elim (Option-cases t.socket) [
        | inr (x, se) ↦ rw se (n, r)
        | inl se ↦
            rw (se, ue)
              (elim (Option-cases t.subscribe) [
                | inr (x, be) ↦ rw be (n, r)
                | inl be ↦ rw be (
                  notes-listen t.heard (turns false ts) ∙ ap (λ l. passed_on t.heard ++ l) n,
                  replies-listen t.heard (turns false ts) ∙ r,
                )
              ])
      ])
    ]

-- The error of the first turn, if there is one
abbrev pub first_error : Turn → Option Error
first_error t = elim t.socket [ some e ↦ some e | none ↦ t.subscribe ]

abbrev pub listed : Option Error → List Error
listed none = []
listed (some e) = e ∷ []

-- When a connection without an error can be upgraded, a subscription replies with the error of its first
-- turn, if that one fails, and with no other: then nothing is passed on. Otherwise all that the turns
-- hear up to the end of the request is passed on in order, whichever of the later turns fail.
pub handle_eth_subscription-delivers :
    (t : Turn) (ts : List Turn)
    → Upgrades (t ∷ ts)
    → t.ended ≡ false
    → (replies (handle_eth_subscription true (t ∷ ts)) ≡ listed (first_error t))
      × (notes (handle_eth_subscription true (t ∷ ts))
          ≡ (if is_none (first_error t) then all_heard (t ∷ ts) else []))
unfolding handle_eth_subscription turns
handle_eth_subscription-delivers t ts (ue, u) e =
    let (n, r) = turns-later ts u in
    rw e (elim (Option-cases t.socket) [
      | inr (x, se) ↦ rw se (refl, refl)
      | inl se ↦
          rw (se, ue)
            (elim (Option-cases t.subscribe) [
              | inr (x, be) ↦ rw be (refl, refl)
              | inl be ↦ rw be (
                replies-listen t.heard (turns false ts) ∙ r,
                notes-listen t.heard (turns false ts) ∙ ap (λ l. passed_on t.heard ++ l) n,
              )
            ])
    ])
