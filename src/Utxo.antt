-- ===== src/Utxo.antt =====
-- The set of unspent transaction outputs (rusty-core/src/consensus/utxo_set.rs).
pub mod Set
pub mod Update
pub mod Revert
pub mod Validate
pub mod Proofs
mod Tests
