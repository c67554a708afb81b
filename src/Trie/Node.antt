-- ===== src/Trie/Node.antt =====
-- The nodes of the trie, and the keys as half-bytes.
use Prim.Native.String.{String}
use rusty_coin.Common.{
  ◌/◌, ◌%◌, Bool, true, false, ◌&&◌, Option, none, List, [], ◌∷◌, replicate, ◌==◌, if◌then◌else◌,
}
use rusty_coin.Common.Words.{Bytes}
use rusty_coin.Types.Tx.{Hash}

-- A branch has sixteen children.
pub data TrieNode : Type 0 where
  empty : TrieNode
  leaf : (key_end value : Bytes) → TrieNode
  extension : (common_prefix : Bytes) (next_hash : Hash) → TrieNode
  branch : (children : List (Option Hash)) (value : Option Bytes) → TrieNode

-- `ConsensusError::TrieError`; the other two stand for an index out of range, which is a panic, and
-- for a recursion that runs out of fuel.
pub data TrieError : Type 0 where
  trie_error : String → TrieError
  panics : TrieError
  exhausted : TrieError

unfoldable pub bytes_to_nibbles : Bytes → Bytes
bytes_to_nibbles [] = []
bytes_to_nibbles (byte ∷ bytes) = byte / 16 ∷ byte % 16 ∷ bytes_to_nibbles bytes

unfoldable pub common_prefix : Bytes → Bytes → Bytes
common_prefix [] b = []
common_prefix (x ∷ a) [] = []
common_prefix (x ∷ a) (y ∷ b) = let rest = common_prefix a b in if x == y then x ∷ rest else []

-- `key.starts_with(prefix)`
unfoldable pub starts_with : Bytes → Bytes → Bool
starts_with key [] = true
starts_with [] (p ∷ prefix) = false
starts_with (x ∷ key) (p ∷ prefix) = let rest = starts_with key prefix in x == p && rest

abbrev pub no_children : List (Option Hash)
no_children = replicate 16 none
