-- ===== src/Util/Errors.antt =====
-- lib/util/error.go: the three classes of errors.
pub mod Classes
use venn.Prelude.{
  ℕ, ◌≡◌, Bool, true, false, ◌&&◌, ◌||◌, not, Option, none, some, ◌==◌, if◌then◌else◌,
}
use venn.Prelude.Int.{ℤ, negsuc, eqb_ℤ}
use venn.Rpc.{Error, Codec}
use venn.Util.Text.{codes, contains, contains_ignore_case}

-- The switch on `codecError.ErrorCode()` of `IsUserError`, from EIP-1474.
unfoldable pub is_user_code : Codec → Bool
is_user_code c =
    if eqb_ℤ c.code (negsuc 32600)
      || eqb_ℤ c.code (negsuc 32602)
      || eqb_ℤ c.code (negsuc 32000)
      || eqb_ℤ c.code (negsuc 32001)
      || eqb_ℤ c.code (negsuc 32004)
    then false
    else if eqb_ℤ c.code (negsuc 31999)
    then not (contains (codes c.message) (codes "not found"))
    else true

-- The tests behind `err == nil`, in order.
abbrev user_of_codec : Error → Option Codec → Bool
user_of_codec e (some c) = is_user_code c
user_of_codec e none = e.deadline || e.canceled

unfoldable pub is_user_error : Option Error → Bool
unfolding is_user_code
is_user_error none = false
is_user_error (some e) = e.user || e.unsupported || user_of_codec e e.codec

abbrev has_limit_code : Option Codec → Bool
has_limit_code none = false
has_limit_code (some c) = eqb_ℤ c.code (negsuc 32004)

-- `http.StatusTooManyRequests`
abbrev is_too_many : Option ℕ → Bool
is_too_many none = false
is_too_many (some status) = status == 429

unfoldable pub is_timeout_error : Option Error → Bool
is_timeout_error none = false
is_timeout_error (some e) =
    has_limit_code e.codec
    || is_too_many e.http
    || contains_ignore_case (codes e.text) (codes "limit")
    || contains_ignore_case (codes e.text) (codes "rate")

abbrev node_of_http : Option ℕ → Bool
node_of_http none = true
node_of_http (some status) = not (status == 429 || status == 400 || status == 413)

abbrev node_of_codec : Error → Option Codec → Bool
node_of_codec e (some c) = false
node_of_codec e none = node_of_http e.http

unfoldable pub is_node_error : Option Error → Bool
is_node_error none = false
is_node_error (some e) = node_of_codec e e.codec
