-- ===== src/Types.antt =====
-- The types that every part of the program shares (rusty-shared-types/src).
pub mod Tx
pub mod Payload
pub mod Transaction
pub mod Block
