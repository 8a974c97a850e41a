-- ===== src/Rpc/Errors.antt =====
-- Errors as the program can see them: through `errors.Is`, `errors.As` and `err.Error()`.
use venn.Prelude.{ℕ, String, Bool, true, false, Option, none, some}
use venn.Prelude.Int.{ℤ, negsuc}

-- What `errors.As(err, &jsonrpc.Error)` finds.
pub record Codec : Type 0 where
  pub code : ℤ
  pub message : String

pub record Error : Type 0 where
  -- `errors.Is` against util.UserError, ErrNotificationsUnsupported, context.DeadlineExceeded,
  -- context.Canceled, ErrHeadOld and ErrHeadJumpedBackwards
  pub user : Bool
  pub unsupported : Bool
  pub deadline : Bool
  pub canceled : Bool
  pub head_old : Bool
  pub head_backwards : Bool
  pub codec : Option Codec
  -- `errors.As(err, **jsonrpc.HTTPError)`: its StatusCode
  pub http : Option ℕ
  -- `err.Error()`
  pub text : String

-- `errors.New(text)`
abbrev pub plain : String → Error
plain text = record {
  user = false;
  unsupported = false;
  deadline = false;
  canceled = false;
  head_old = false;
  head_backwards = false;
  codec = none;
  http = none;
  text = text;
}

-- What the JSON decoder returns. Its text is left out.
abbrev pub decode_error : Error
decode_error = plain "json"

-- The codes of the JSON-RPC specification, which the jsonrpc package gives these errors.
abbrev pub rpc_error : ℤ → String → Error
rpc_error code text = record (plain text) { codec = some (record { code = code; message = text }) }

abbrev pub internal_error : String → Error
internal_error = rpc_error (negsuc 32602)

abbrev pub invalid_request : String → Error
invalid_request = rpc_error (negsuc 32599)

abbrev pub invalid_params : String → Error
invalid_params = rpc_error (negsuc 32601)

abbrev pub err_ratelimited : Error
err_ratelimited = internal_error "remote is rate limited"

abbrev pub err_method_not_allowed : Error
err_method_not_allowed = invalid_request "method not allowed"

-- `updateHead` wraps this one, with the two heads in its text, which are left out.
abbrev pub err_head_backwards : Error
err_head_backwards = record (internal_error "head jumped backwards") { head_backwards = true }

abbrev pub err_head_old : Error
err_head_old = record (internal_error "head old") { head_old = true }
