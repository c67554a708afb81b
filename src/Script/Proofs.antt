-- ===== src/Script/Proofs.antt =====
-- What is proved of the script machine.
pub mod Codes
pub mod SigOps
pub mod Frame
pub mod Budget
pub mod Skipping
pub mod Templates
pub mod Locks
pub mod Multisig
pub mod Panics
pub mod Oblivious
pub mod Independent
