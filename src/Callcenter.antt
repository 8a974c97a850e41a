-- ===== src/Callcenter.antt =====
-- lib/callcenter: the remotes of a chain and the middlewares around each.
pub mod Proxier
pub mod HybridProxy
pub mod Backer
pub mod Cluster
pub mod Validator
pub mod Doctor
