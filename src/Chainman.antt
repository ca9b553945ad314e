-- ===== src/Chainman.antt =====
-- src/chainman: the header chain, what is synchronised of it, and the answers given from it.
pub mod Chain
pub mod Headers
pub mod Walks
pub mod Downloads
pub mod Locator
pub mod Runs
pub mod Queries
pub mod BlockSync
pub mod Dependencies
pub mod KeepUp
mod Tests
