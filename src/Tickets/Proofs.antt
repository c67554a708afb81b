-- ===== src/Tickets/Proofs.antt =====
-- What holds of the choice of the voters.
pub mod Order
pub mod Counts
pub mod Voters
