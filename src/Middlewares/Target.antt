-- ===== src/Middlewares/Target.antt =====
-- The middlewares of a remote, as svc/node/quarks/cluster/cluster.go stacks them.
pub mod Stack
use venn.Prelude.{ℕ, String, Bool, true, false, Option, none, some, List}
use venn.Prelude.Int.{ℤ}
use venn.Rpc.{Chain, Request, Handler, Hexutil, Result}
use venn.Callcenter.Backer.{Backer, serve as back}
use venn.Callcenter.Validator.{Validator, serve as validate}
use venn.Callcenter.Doctor.{Doctor, serve as doctor}
use venn.Middlewares.Guards.{Collector, filterer, ratelimiter, collector, logger}
use venn.Middlewares.InputData.{serve as input_data}
use venn.Middlewares.LookBack.{BlockLookBack, serve as look_back}

-- `RemoteTarget`: the state of the middlewares around the state of the connection, the outermost first.
abbrev pub Target : Type 0 → Type 0
Target S = Doctor × (Validator × (Backer × (Collector × S)))

-- The limiter and the head store belong to the state of the program below.
abbrev pub at_target : {S : Type 0} → (S → Bool × S) → Target S → Bool × Target S
at_target allow (d, (v, (b, (c, s)))) =
    let (allowed, s') = allow s in (allowed, (d, (v, (b, (c, s')))))

module _ (hex : Hexutil) {S : Type 0} (clock : S → ℤ) (too_slow : S → Bool) (allow : S → Bool × S)
    (get : Chain → S → Result ℕ) where
  -- The handlers below the doctor, over the connection.
  unfoldable pub inner : Handler S → Handler (Backer × (Collector × S))
  inner proxier = back (logger (collector (input_data proxier)))

  unfoldable pub validated : Handler S → Handler (Validator × (Backer × (Collector × S)))
  unfolding inner
  validated proxier = validate hex (λ t. clock t.1.1) (λ t. too_slow t.1.1) (inner proxier)

  unfoldable pub guarded : List (String × Bool) → Handler S → Handler (Target S)
  unfolding validated
  guarded methods proxier =
      filterer methods (ratelimiter (at_target allow) (doctor hex (validated proxier)))

  -- The look-back middleware is there only if the remote has a limit.
  unfoldable pub target :
      Option BlockLookBack → List (String × Bool) → Handler S → Handler (Target S)
  unfolding guarded
  target none methods proxier = guarded methods proxier
  target (some m) methods proxier =
      look_back hex (λ c t. get c t.1.1.1.1) m (guarded methods proxier)
