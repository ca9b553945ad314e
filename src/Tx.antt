-- ===== src/Tx.antt =====
-- src/tx: what is computed of a transaction: sizes, signature operations, scripts, addresses.
pub mod Opcodes
pub mod Script
pub mod Sigops
pub mod Size
pub mod Building
pub mod Address
pub mod Analysis
mod Tests
