-- ===== src/Gateway.antt =====
-- svc/app/gateway/api.go: what a request to the gateway passes. Security is the part over HTTP, Guards the
-- middlewares of its JSON-RPC.
pub mod Words
pub mod Security
pub mod Guards
pub mod Telemetry
