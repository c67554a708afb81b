-- ===== src/Script/Ops.antt =====
-- The operations of the script engine, in the groups of the opcode table.
pub mod Stack
pub mod Splice
pub mod Flow
pub mod Digest
pub mod Signature
pub mod Locktime
