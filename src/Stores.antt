-- ===== src/Stores.antt =====
-- lib/stores: the stores that the nodes of a cluster share.
pub mod Head
pub mod Blocks
pub mod Redihead
pub mod Rediblock
pub mod Heads
pub mod Chain
pub mod ChainLogs
