-- ===== src/Merkle.antt =====
-- Merkle roots: `Block::calculate_merkle_root_from_hashes` (rusty-shared-types/src/lib.rs) and
-- `calculate_merkle_root` (rusty-consensus/src/pow.rs).
pub mod Tree
pub mod Proofs
mod Tests
