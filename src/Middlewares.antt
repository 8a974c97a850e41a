-- ===== src/Middlewares.antt =====
-- svc/node/middlewares and the middlewares of lib/callcenter that keep no health of a remote, and the stack of a
-- remote.
pub mod LookBack
pub mod HeadReplacer
pub mod InputData
pub mod Guards
pub mod Target
pub mod Blocks
pub mod LogFilter
pub mod Cacher
pub mod Forger
