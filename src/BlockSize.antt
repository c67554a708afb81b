-- ===== src/BlockSize.antt =====
-- The limit on the size of a block, which follows the sizes of the blocks
-- (rusty-consensus/src/adaptive_block_size.rs).
pub mod Adaptive
pub mod Proofs
mod Tests
