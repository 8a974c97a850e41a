-- ===== src/Callcenter/Doctor/Loop.antt =====
-- The goroutine that `Middleware` of lib/callcenter/doctor.go starts, with `loop`, among the calls of `CanUse`
-- and `Close`. A check ends as a step; what happens during its requests are steps before.
use venn.Prelude.{ℕ, Bool, true, false, List, [], ◌∷◌}
use venn.Prelude.Int.{negsuc}
use venn.Rpc.{Error, Result}
use venn.Callcenter.Doctor.{
  Doctor, Timer, running, due, idle, said, fail, note_chain_id, can_use_now, close,
}

-- Where the goroutine is: in `check`, in the select of `loop`, or at its end.
pub data Phase : Type 0 where
  checking selecting returned : Phase

pub data Event : Type 0 where
  -- the timer expires, the select takes its tick, and the select sees that the context is done
  expires ticks ends : Event
  -- `check` ends after `eth_blockNumber` has failed, or after an answer to `eth_chainId`
  no_block : Error → Event
  chain_answer : Result ℕ → Event
  -- `CanUse` and `Close`
  asked closes : Event

abbrev pub expire : Timer → Doctor → Doctor
expire (running t) d = record d { timer = due }
expire due d = d
expire idle d = d

abbrev pub take_tick : Timer → Doctor → Phase × Doctor
take_tick (running t) d = (selecting, d)
take_tick due d = (checking, record d { timer = idle })
take_tick idle d = (selecting, d)

-- `defer T.timer.Stop()`
abbrev pub return_if : Bool → Doctor → Phase × Doctor
return_if true d = (returned, record d { timer = idle })
return_if false d = (selecting, d)

-- An event that the phase does not allow changes nothing.
unfoldable pub step : Event → Phase → Doctor → Phase × Doctor
unfolding note_chain_id can_use_now close
step expires phase d = (phase, expire d.timer d)
step ticks checking d = (checking, d)
step ticks selecting d = take_tick d.timer d
step ticks returned d = (returned, d)
step ends checking d = (checking, d)
step ends selecting d = return_if d.closed d
step ends returned d = (returned, d)
step (no_block e) checking d = (selecting, fail (said e.text) (negsuc 0) d)
step (no_block e) selecting d = (selecting, d)
step (no_block e) returned d = (returned, d)
step (chain_answer a) checking d = (selecting, note_chain_id a d)
step (chain_answer a) selecting d = (selecting, d)
step (chain_answer a) returned d = (returned, d)
step asked phase d = (phase, (can_use_now d).1)
step closes phase d = (phase, (close d).1)

unfoldable pub run : List Event → Phase → Doctor → Phase × Doctor
unfolding step
run [] phase d = (phase, d)
run (e ∷ es) phase d = let (phase', d') = step e phase d in run es phase' d'
