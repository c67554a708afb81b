-- ===== src/Validation/Proofs.antt =====
-- What an accepted block satisfies.
pub mod Sums
pub mod Spending
pub mod Accepted
pub mod Coinbase
pub mod Rewards
pub mod Chain
pub mod Quorum
pub mod Slashed
pub mod Applied
