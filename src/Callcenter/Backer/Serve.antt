-- ===== src/Callcenter/Backer/Serve.antt =====
-- The middleware of lib/callcenter/backer.go, from the client's side.
use venn.Prelude.{ℕ, ◌≡◌, ◌≢◌, ◌↔◌, Bool, true, false, ◌||◌, none, some, arith}
use venn.Rpc.{Error, Request, Handler, fresh, intercept}
use venn.Util.Text.{codes, contains_ignore_case}
use venn.Util.Errors.{is_user_error, is_timeout_error, is_node_error}
use venn.Callcenter.Backer.{Backer, ok, limit, error, note, serve}

-- The text of the error speaks of a limit or a rate.
abbrev pub speaks_of_limit : Error → Bool
speaks_of_limit e =
    contains_ignore_case (codes e.text) (codes "limit")
    || contains_ignore_case (codes e.text) (codes "rate")

-- A plain HTTP error: no JSON-RPC error and no flag in the chain, and no word of limits.
pub record IsHttp (e : Error) (status : ℕ) : Type 0 where
  pub status_of : e.http ≡ some status
  pub no_codec : e.codec ≡ none
  pub no_user : e.user ≡ false
  pub no_unsupported : e.unsupported ≡ false
  pub no_deadline : e.deadline ≡ false
  pub no_cancel : e.canceled ≡ false
  pub silent : speaks_of_limit e ≡ false

note-http_iff :
    (b : Backer) (e : Error) (status : ℕ)
    → b.happy ≡ true
    → IsHttp e status
    → ((note (some e) b).happy ≡ false) ↔ ((status ≢ 400) × (status ≢ 413))
unfolding note ok limit error is_user_error is_timeout_error is_node_error
note-http_iff b e status h i = ground arith

-- A remote that is not held back and answers a request with a plain HTTP error, one with no other
-- class and no word of limits, is held back afterwards exactly if the status is neither 400 nor
-- 413: these two blame the request.
pub serve-http_iff {ℓ} :
    {S : Type ℓ} (next : Handler S) (r : Request) (b : Backer) (s : S) (e : Error) (status : ℕ)
    → b.happy ≡ true
    → (intercept fresh (next r s).0).error ≡ some e
    → IsHttp e status
    → ((serve next r (b, s)).1.0.happy ≡ false) ↔ ((status ≢ 400) × (status ≢ 413))
unfolding serve
serve-http_iff next r b s e status h answered i = ground (arith, note-http_iff b e status h i)
