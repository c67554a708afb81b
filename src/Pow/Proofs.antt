-- ===== src/Pow/Proofs.antt =====
-- What the difficulty adjustment guarantees.
pub mod Adjustment
pub mod Bytes
pub mod Rounding
