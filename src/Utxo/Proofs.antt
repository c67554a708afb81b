-- ===== src/Utxo/Proofs.antt =====
-- What the set's operations do.
pub mod Lookup
pub mod Sequential
pub mod Value
pub mod Validity
pub mod Reverting
