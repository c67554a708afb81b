-- ===== src/Validation.antt =====
-- The rules that a block and its transactions are checked against (rusty-consensus/src/validation.rs).
pub mod Context
pub mod Outputs
pub mod Locktime
pub mod Inputs
pub mod Structure
pub mod Payload
pub mod Transactions
pub mod Header
pub mod Votes
pub mod Fees
pub mod Block
pub mod Apply
pub mod Masternode
pub mod Proofs
mod Tests
