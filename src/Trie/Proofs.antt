-- ===== src/Trie/Proofs.antt =====
-- What holds of lookups and of proofs.
pub mod Paths
pub mod Mismatch
