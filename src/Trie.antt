-- ===== src/Trie.antt =====
-- The Merkle Patricia trie of the state (rusty-core/src/state/merkle_patricia_trie.rs).
pub mod Node
pub mod Store
pub mod Proof
pub mod Proofs
mod Tests
