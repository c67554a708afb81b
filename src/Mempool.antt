-- ===== src/Mempool.antt =====
-- The pool of unconfirmed transactions (rusty-core/src/mempool.rs).
pub mod Pool
pub mod Admission
pub mod Template
pub mod Proofs
mod Tests
