-- ===== src/Ethtypes.antt =====
-- lib/ethtypes: block numbers, log filters and their JSON.
pub mod Logs
pub mod BlockNumber
pub mod BlockNumberOrHash
pub mod Filter
