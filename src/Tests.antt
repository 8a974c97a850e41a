-- ===== src/Tests.antt =====
-- Runs at concrete inputs.
mod Elections
mod Nodes
mod Gates
mod Shared
mod Hex
mod Data
mod Calls
mod Health
mod Reads
mod Ranges
mod Stalks
mod Blocks
mod Stacks
mod Answers
mod Forged
mod Reports
mod Configs
mod Proxies
mod Pages
mod Clusters
