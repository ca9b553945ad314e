-- ===== src/Chainman/BlockSync.antt =====
-- src/chainman/blocksync.rs: the download of the missing blocks.
pub mod Jobs
pub mod Master
pub mod Backlog
pub mod Asking
pub mod Handout
pub mod Invariant
pub mod Deliveries
pub mod Worker
pub mod Runs
