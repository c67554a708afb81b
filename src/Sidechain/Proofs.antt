-- ===== src/Sidechain/Proofs.antt =====
-- What holds of the federations and of the peg.
pub mod Lifecycle
pub mod Refinement
pub mod Epochs
pub mod Updates
pub mod Due
pub mod Coordination
pub mod Reachable
pub mod Signers
