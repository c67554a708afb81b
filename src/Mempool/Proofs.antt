-- ===== src/Mempool/Proofs.antt =====
-- What the pool admits and what a block template takes from it.
pub mod Conflicts
pub mod Selection
