-- ===== src/Governance.antt =====
-- The active proposals and the votes on them (rusty-core/src/consensus/governance_state.rs).
pub mod Proposals
pub mod Proofs
mod Tests
