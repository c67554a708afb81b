-- ===== src/Trie/Store.antt =====
-- `MerklePatriciaTrie`: the nodes under their hashes, lookup and insertion. A recursion takes fuel;
-- one more than the length of the key is given.
use rusty_coin.Common.{
  ℕ, zero, suc, true, false, Option, none, some, [], ◌∷◌, length, drop, get_elem?, set, ◌==◌,
}
use rusty_coin.Common.HashMap.{HashMap, get, insert, remove}
use rusty_coin.Common.Result.{Result, ok, err, ◌>>=◌}
use rusty_coin.Common.Words.{Bytes}
use rusty_coin.Types.Tx.{Hash, hash_key, Hash-discrete}
use rusty_coin.Trie.Node.{
  TrieNode, empty, leaf, extension, branch, TrieError, trie_error, panics, exhausted,
  bytes_to_nibbles, common_prefix, starts_with, no_children,
}

abbrev pub Nodes : Type 0
Nodes = HashMap Hash TrieNode

pub record MerklePatriciaTrie : Type 0 where
  pub root_hash : Hash
  pub nodes : Nodes
  pub root_node : Option TrieNode

unfoldable pub get_recursive : ℕ → Nodes → Hash → Bytes → Result TrieError (Option Bytes)
get_recursive zero nodes node_hash key_nibbles = err exhausted
get_recursive (suc fuel) nodes node_hash key_nibbles = elim (get node_hash nodes) [
  | none ↦ err (trie_error "Node not found")
  | some empty ↦ ok none
  | some (leaf key_end value) ↦ elim (Hash-discrete key_end key_nibbles) [
    | yes p ↦ ok (some value)
    | no p ↦ ok none
  ]
  | some (extension prefix next_hash) ↦ elim (starts_with key_nibbles prefix) [
    | true ↦ get_recursive fuel nodes next_hash (drop (length prefix) key_nibbles)
    | false ↦ ok none
  ]
  | some (branch children value) ↦ elim key_nibbles [
    | [] ↦ ok value
    | first_nibble ∷ remaining_key ↦ elim (get_elem? children first_nibble) [
      | none ↦ err panics
      | some none ↦ ok none
      | some (some child_hash) ↦ get_recursive fuel nodes child_hash remaining_key
    ]
  ]
]

-- `MerklePatriciaTrie::get`
unfoldable pub get_value : MerklePatriciaTrie → Bytes → Result TrieError (Option Bytes)
unfolding get_recursive bytes_to_nibbles
get_value trie key =
    let nibbles = bytes_to_nibbles key in
    get_recursive (suc (length nibbles)) trie.nodes trie.root_hash nibbles

-- `hash` is `TrieNode::hash`, of the crates bincode and blake3.
module _ (hash : TrieNode → Hash) where
  unfoldable pub new_trie : MerklePatriciaTrie
  new_trie = record {
    root_hash = hash empty;
    nodes = insert (hash empty) empty [];
    root_node = some empty;
  }

  -- `self.nodes.insert(node.hash(), node)`, and the hash.
  unfoldable pub store : TrieNode → Nodes → Nodes × Hash
  store node nodes = (insert (hash node) node nodes, hash node)

  -- `self.nodes.remove(&node_hash)` first.
  unfoldable pub replace : Hash → TrieNode → Nodes → Nodes × Hash
  unfolding store
  replace node_hash node nodes = store node (remove node_hash nodes)

  -- The case of `split_leaf` without a common prefix: a branch with the two leaves, or the panic where
  -- one of the keys has ended.
  unfoldable pub branch_leaves :
      Nodes → Bytes → Bytes → Bytes → Bytes → Result TrieError (Nodes × TrieNode)
  unfolding store
  branch_leaves nodes [] existing_value new_key new_value = err panics
  branch_leaves nodes (x ∷ existing) existing_value [] new_value = err panics
  branch_leaves nodes (x ∷ existing) existing_value (y ∷ new_key) new_value =
      let (nodes', existing_hash) = store (leaf existing existing_value) nodes in
      let (nodes'', new_hash) = store (leaf new_key new_value) nodes' in
      ok (nodes'', branch (set (set no_children x (some existing_hash)) y (some new_hash)) none)

  -- The recursive call, on the keys without their common prefix, has none.
  unfoldable pub split_leaf :
      Nodes → Bytes → Bytes → Bytes → Bytes → Result TrieError (Nodes × TrieNode)
  unfolding branch_leaves common_prefix store
  split_leaf nodes existing_key existing_value new_key new_value =
      let common = common_prefix existing_key new_key in
      elim (length common == 0) [
        | true ↦ branch_leaves nodes existing_key existing_value new_key new_value
        | false ↦ do
          split ←
              branch_leaves nodes (drop (length common) existing_key) existing_value
                (drop (length common) new_key) new_value
          let stored = store split.1 split.0
          ok (stored.0, extension common stored.1)
      ]

  -- The key and the value are not used.
  unfoldable pub split_extension : Bytes → Hash → Bytes → Bytes → Bytes → Bytes → TrieNode
  split_extension prefix next_hash new_common_prefix new_key new_value common =
      extension prefix next_hash

  -- Nothing is stored before the recursive call, so an error leaves the nodes as they were.
  unfoldable pub insert_recursive :
      ℕ → Nodes → Hash → Bytes → Bytes → Result TrieError (Nodes × Hash)
  unfolding store replace split_leaf split_extension common_prefix
  insert_recursive zero nodes node_hash key_nibbles value = err exhausted
  insert_recursive (suc fuel) nodes node_hash key_nibbles value = elim (get node_hash nodes) [
    | none ↦ err (trie_error "Node not found")
    | some empty ↦ ok (store (leaf key_nibbles value) nodes)
    | some (leaf key_end existing_value) ↦ elim (Hash-discrete key_end key_nibbles) [
      | yes p ↦ ok (replace node_hash (leaf key_end value) nodes)
      | no p ↦ do
        split ← split_leaf nodes key_end existing_value key_nibbles value
        ok (replace node_hash split.1 split.0)
    ]
    | some (extension prefix next_hash) ↦
        let common = common_prefix prefix key_nibbles in
        elim (length common == length prefix) [
          | true ↦ do
            inserted ←
                insert_recursive fuel nodes next_hash (drop (length prefix) key_nibbles) value
            ok (replace node_hash (extension prefix inserted.1) inserted.0)
          | false ↦ ok (
              replace node_hash
                (split_extension prefix next_hash (drop (length common) key_nibbles) key_nibbles
                  value common)
                nodes)
        ]
    | some (branch children branch_value) ↦ elim key_nibbles [
      | [] ↦ ok (replace node_hash (branch children (some value)) nodes)
      | first_nibble ∷ remaining_key ↦ elim (get_elem? children first_nibble) [
        | none ↦ err panics
        | some child ↦ do
          inserted ← elim child [
            | some child_hash ↦ insert_recursive fuel nodes child_hash remaining_key value
            | none ↦ ok (store (leaf remaining_key value) nodes)
          ]
          ok (
              replace node_hash (branch (set children first_nibble (some inserted.1)) branch_value)
                inserted.0)
      ]
    ]
  ]

  -- `MerklePatriciaTrie::insert`
  unfoldable pub insert_value :
      MerklePatriciaTrie → Bytes → Bytes → Result TrieError MerklePatriciaTrie
  unfolding insert_recursive bytes_to_nibbles
  insert_value trie key value = do
    let nibbles = bytes_to_nibbles key
    inserted ← insert_recursive (suc (length nibbles)) trie.nodes trie.root_hash nibbles value
    ok (record {
      root_hash = inserted.1;
      nodes = inserted.0;
      root_node = get inserted.1 inserted.0;
    })
