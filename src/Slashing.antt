-- ===== src/Slashing.antt =====
-- Tickets slashed for not voting and for voting twice (rusty-consensus/src/pos_slashing.rs).
pub mod Ticket
pub mod Proofs
mod Tests
