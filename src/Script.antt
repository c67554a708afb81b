-- ===== src/Script.antt =====
-- FerrisScript, the script machine of rusty-core/src/script.
pub mod Opcode
pub mod Engine
pub mod Context
pub mod Ops
pub mod Execute
pub mod Validate
pub mod Standard
pub mod Proofs
mod Tests
