-- ===== src/Tickets.antt =====
-- The pool of live tickets, the choice of the voters and the price of a ticket
-- (rusty-core/src/consensus/pos.rs).
pub mod Pool
pub mod Selection
pub mod Proofs
mod Tests
