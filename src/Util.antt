-- ===== src/Util.antt =====
-- src/util: the helpers that the other parts share.
pub mod Arena
pub mod U256
pub mod Compact
pub mod Pow
pub mod Merkle
pub mod TimeTracker
mod Tests
