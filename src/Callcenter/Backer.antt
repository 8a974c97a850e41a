-- ===== src/Callcenter/Backer.antt =====
-- lib/callcenter/backer.go. The callback of `time.AfterFunc` is the event `fire`; a method holds the
-- mutex, so it is one step.
pub mod Events
pub mod Serve
use venn.Prelude.{ℕ, Bool, true, false, Option, none, some, List, [], ◌∷◌, if◌then◌else◌, not}
use venn.Prelude.Int.{pos}
use venn.Prelude.Duration.{Duration, double, halve, min, max}
use venn.Rpc.{Error, Request, Reply, Handler, failed, fresh, intercept, internal_error}
use venn.Util.Errors.{is_user_error, is_timeout_error, is_node_error}

pub record Backer : Type 0 where
  pub rate_limit_timeout : Duration
  pub error_min_timeout : Duration
  pub error_max_timeout : Duration
  -- the time for which `timer` was last set, until it fires
  pub timer : Option Duration
  pub happy : Bool
  pub timeout : Duration

unfoldable pub new_backer : Duration → Duration → Duration → Backer
new_backer rate_limit_timeout error_min_timeout error_max_timeout = record {
  rate_limit_timeout = rate_limit_timeout;
  error_min_timeout = error_min_timeout;
  error_max_timeout = error_max_timeout;
  timer = some (pos 0);
  happy = true;
  timeout = error_min_timeout;
}

-- The timer's callback.
unfoldable pub fire : Backer → Backer
fire b = record b { timer = none; happy = true }

unfoldable pub ok : Backer → Backer
ok b = if not b.happy then b else record b { timeout = min b.error_min_timeout (halve b.timeout) }

unfoldable pub limit : Backer → Backer
limit b = if not b.happy then b else record b { happy = false; timer = some b.rate_limit_timeout }

unfoldable pub error : Backer → Backer
error b =
    let timeout = max b.error_max_timeout (double b.timeout) in
    if not b.happy then b else record b { timeout = timeout; happy = false; timer = some timeout }

-- The ladder of the middleware over the error of the reply.
unfoldable pub note : Option Error → Backer → Backer
note none b = ok b
note (some e) b =
    if is_user_error (some e)
    then ok b
    else if is_timeout_error (some e)
    then limit b
    else if is_node_error (some e)
    then error b
    else ok b

abbrev pub err_backoff : Error
err_backoff = internal_error "remote is unhealthy (backoff active)"

unfoldable pub serve {ℓ} : {S : Type ℓ} → Handler S → Handler (Backer × S)
serve next r (b, s) =
    if not b.happy
    then (failed err_backoff ∷ [], (b, s))
    else let (sends, s') = next r s in
      let icept = intercept fresh sends in (icept ∷ [], (note icept.error b, s'))
