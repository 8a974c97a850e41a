-- ===== src/Gateway/Telemetry.antt =====
-- svc/gateway/quarks/telemetry/component.go: the entries that a gateway publishes about its requests. F is an
-- acknowledgement that is still to come, of the package jetstream.
pub mod Held
use venn.Prelude.{
  ℕ, zero, suc, ◌+◌, ◌≤◌, ◌<◌, ◌≡◌, refl, ◌∙◌, inl, inr, Bool, true, false, Option, none, some,
  List, [], ◌∷◌, ◌++◌, arith, ltb, length, length-append, if◌then◌else◌, Bool-cases,
}
use venn.Rpc.{Error, Result, ok, err}

-- The goroutine that `New` starts: it waits for one acknowledgement, then for that one's outcome, and ends.
pub data Reader (F : Type 0) : Type 0 where
  waiting : Reader F
  reading : F → Reader F
  ended : Reader F

-- The channel holds 128 acknowledgements at most.
pub record Telemetry (F : Type 0) : Type 0 where
  pub enabled : Bool
  pub pending : List F
  pub reader : Reader F

unfoldable pub new_telemetry : {F : Type 0} → Bool → Telemetry F
new_telemetry enabled = record { enabled = enabled; pending = []; reader = waiting }

-- What `Publish` comes to: it returns, or waits at the channel.
pub data Published : Type 0 where
  returned : Option Error → Published
  waits : Published

module _ {F : Type 0} where
  -- `o.pending <- fut`
  abbrev pub send : F → Telemetry F → Published × Telemetry F
  send fut t =
      if ltb (length t.pending) 128
      then (returned none, record t { pending = t.pending ++ (fut ∷ []) })
      else (waits, t)

  abbrev pub on_async : Result F → Telemetry F → Published × Telemetry F
  on_async (err e) t = (returned (some e), t)
  on_async (ok fut) t = send fut t

  abbrev pub on_marshal : Option Error → Result F → Telemetry F → Published × Telemetry F
  on_marshal (some e) async t = (returned (some e), t)
  on_marshal none async t = on_async async t

  -- `Publish`, with the error of marshalling the entry and the result of `PublishAsync`
  unfoldable pub publish : Option Error → Result F → Telemetry F → Published × Telemetry F
  publish marshal async t =
      let sent = on_marshal marshal async t in if t.enabled then sent else (returned none, t)

  -- The goroutine: it takes the first acknowledgement, and after its outcome it is gone.
  abbrev pub take_first : List F → Telemetry F → Telemetry F
  take_first [] t = t
  take_first (fut ∷ pending) t = record t { pending = pending; reader = reading fut }

  unfoldable pub read : Telemetry F → Telemetry F
  read t = elim t.reader [
    | waiting ↦ take_first t.pending t
    | reading fut ↦ record t { reader = ended }
    | ended ↦ t
  ]

-- The requests that wait, and how many acknowledgements have been sent.
pub record Traffic (F : Type 0) : Type 0 where
  pub telemetry : Telemetry F
  pub blocked : List F
  pub sent : ℕ

pub data Event (F : Type 0) : Type 0 where
  publishes : Option Error → Result F → Event F
  reads : Event F

unfoldable pub new_traffic : {F : Type 0} → Traffic F
unfolding new_telemetry
new_traffic = record { telemetry = new_telemetry true; blocked = []; sent = 0 }

module _ {F : Type 0} where
  -- A request that returns without an error has sent its acknowledgement, and one that waits has one to send.
  abbrev pub note_publish : Result F → Published × Telemetry F → Traffic F → Traffic F
  note_publish (ok fut) (returned none, t') t = record t { telemetry = t'; sent = suc t.sent }
  note_publish (ok fut) (waits, t') t = record t { blocked = t.blocked ++ (fut ∷ []) }
  note_publish async _ t = t

  -- The first of the requests that wait goes on when there is room.
  abbrev pub unblock : List F → Telemetry F → Traffic F → Traffic F
  unblock [] t' t = record t { telemetry = t' }
  unblock (fut ∷ blocked) t' t =
      if ltb (length t'.pending) 128
      then record { telemetry = (send fut t').1; blocked = blocked; sent = suc t.sent }
      else record t { telemetry = t' }

  unfoldable pub step : Event F → Traffic F → Traffic F
  unfolding publish read
  step (publishes marshal async) t =
      note_publish (elim marshal [ none ↦ async | some e ↦ err e ])
        (publish marshal async t.telemetry) t
  step reads t = unblock t.blocked (read t.telemetry) t

  unfoldable pub run : List (Event F) → Traffic F → Traffic F
  unfolding step
  run [] t = t
  run (e ∷ es) t = run es (step e t)
