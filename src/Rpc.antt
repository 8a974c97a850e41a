-- ===== src/Rpc.antt =====
-- What the handlers of the proxy exchange: JSON values, errors, requests and replies
-- (lib/jrpcutil/interceptor.go, lib/callcenter/errors.go, lib/subctx, lib/config/config.go).
mod Documents
mod Errors
mod Exchange
mod Hex
mod Do
unfoldable pub use Documents.*
pub use Errors.*
unfoldable pub use Exchange.*
pub use Hex.*
unfoldable pub use Do.*
