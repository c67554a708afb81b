-- ===== src/Pow.antt =====
-- Proof-of-work targets and the difficulty adjustment (rusty-consensus/src/pow.rs).
pub mod Compact
pub mod Target
pub mod Proofs
mod Tests
