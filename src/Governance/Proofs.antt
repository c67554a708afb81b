-- ===== src/Governance/Proofs.antt =====
-- What holds of the active proposals.
pub mod Consistency
pub mod Counting
