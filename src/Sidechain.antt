-- ===== src/Sidechain.antt =====
-- The federations of the sidechains and the two-way peg (rusty-core/src/sidechain).
pub mod Signature
pub mod Federation
pub mod Integrator
pub mod Peg
pub mod Proofs
mod Tests
