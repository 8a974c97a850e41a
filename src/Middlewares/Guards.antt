-- ===== src/Middlewares/Guards.antt =====
-- lib/callcenter: filterer.go, ratelimiter.go, collector.go and logger.go.
use venn.Prelude.{
  ℕ, suc, String, Bool, true, false, not, Option, none, some, List, [], ◌∷◌, if◌then◌else◌,
}
use venn.Prelude.Maps.{lookup}
use venn.Rpc.{Error, err_method_not_allowed, err_ratelimited, failed, Handler, intercept, fresh}

-- `T.methods[r.Method]` that is included and false.
unfoldable pub is_denied : List (String × Bool) → String → Bool
is_denied methods method = elim (lookup method methods) [ some ok ↦ not ok | none ↦ false ]

unfoldable pub filterer {ℓ} : {S : Type ℓ} → List (String × Bool) → Handler S → Handler S
filterer methods next r s =
    let pass = next r s in
    if is_denied methods r.method then (failed err_method_not_allowed ∷ [], s) else pass

-- `allow` is `limiter.Allow()` of golang.org/x/time/rate, which takes a token from the program's state.
unfoldable pub ratelimiter {ℓ} : {S : Type ℓ} → (S → Bool × S) → Handler S → Handler S
ratelimiter allow next r s =
    let (allowed, s') = allow s in
    let pass = next r s' in if not allowed then (failed err_ratelimited ∷ [], s') else pass

-- What was appended to the two windows, the latest first. Their passing out of the windows, and the
-- rates that are computed from them, are the rolling package's.
pub record Collector : Type 0 where
  pub requests : ℕ
  pub successes : List Bool

abbrev pub is_success : Option Error → Bool
is_success none = true
is_success (some e) = false

unfoldable pub collector {ℓ} : {S : Type ℓ} → Handler S → Handler (Collector × S)
collector next r (c, s) =
    let (sends, s') = next r s in
    let icept = intercept fresh sends in
    (
      icept ∷ [],
      (record { requests = suc c.requests; successes = is_success icept.error ∷ c.successes }, s'),
    )

-- `Logger.Middleware`, without its line of the log.
unfoldable pub logger {ℓ} : {S : Type ℓ} → Handler S → Handler S
logger next r s = next r s
