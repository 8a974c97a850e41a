-- ===== src/Util.antt =====
-- lib/util: how an error decides whom the proxy blames.
pub mod Text
pub mod Errors
