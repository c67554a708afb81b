-- ===== src/Trie/Proof.antt =====
-- Proofs of what the trie holds, and their verification.
use mathlib.Core.List.{reverse}
use rusty_coin.Common.{
  ℕ, zero, suc, Bool, true, false, Option, none, some, List, [], ◌∷◌, length, drop, get_elem?,
}
use rusty_coin.Common.HashMap.{get}
use rusty_coin.Common.Result.{Result, ok, err, ◌>>=◌}
use rusty_coin.Common.Words.{Bytes}
use rusty_coin.Types.Tx.{Hash, hash_key, Hash-discrete}
use rusty_coin.Trie.Node.{
  TrieNode, empty, leaf, extension, branch, TrieError, trie_error, panics, exhausted,
  bytes_to_nibbles, starts_with,
}
use rusty_coin.Trie.Store.{Nodes, MerklePatriciaTrie}

pub record MerkleProof : Type 0 where
  pub key : Bytes
  pub value : Option Bytes
  pub proof_nodes : List TrieNode
  pub root_hash : Hash

-- A node before the nodes of the rest of the path.
abbrev pub push_node :
    TrieNode
    → Result TrieError (List TrieNode × Option Bytes)
    → Result TrieError (List TrieNode × Option Bytes)
push_node node (ok (nodes, value)) = ok (node ∷ nodes, value)
push_node node (err e) = err e

-- The nodes of the path in the order in which they are pushed, and the value.
unfoldable pub collect_proof_nodes :
    ℕ → Nodes → Hash → Bytes → Result TrieError (List TrieNode × Option Bytes)
collect_proof_nodes zero nodes node_hash key_nibbles = err exhausted
collect_proof_nodes (suc fuel) nodes node_hash key_nibbles = elim (get node_hash nodes) [
  | none ↦ err (trie_error "Node not found")
  | some empty ↦ ok (empty ∷ [], none)
  | some (leaf key_end value) ↦ elim (Hash-discrete key_end key_nibbles) [
    | yes p ↦ ok (leaf key_end value ∷ [], some value)
    | no p ↦ ok (leaf key_end value ∷ [], none)
  ]
  | some (extension prefix next_hash) ↦ elim (starts_with key_nibbles prefix) [
    | true ↦
        push_node (extension prefix next_hash)
          (collect_proof_nodes fuel nodes next_hash (drop (length prefix) key_nibbles))
    | false ↦ ok (extension prefix next_hash ∷ [], none)
  ]
  | some (branch children value) ↦ elim key_nibbles [
    | [] ↦ ok (branch children value ∷ [], value)
    | first_nibble ∷ remaining_key ↦ elim (get_elem? children first_nibble) [
      | none ↦ err panics
      | some none ↦ ok (branch children value ∷ [], none)
      | some (some child_hash) ↦
          push_node (branch children value)
            (collect_proof_nodes fuel nodes child_hash remaining_key)
    ]
  ]
]

unfoldable pub generate_proof : MerklePatriciaTrie → Bytes → Result TrieError MerkleProof
unfolding collect_proof_nodes bytes_to_nibbles
generate_proof trie key = do
  let nibbles = bytes_to_nibbles key
  collected ← collect_proof_nodes (suc (length nibbles)) trie.nodes trie.root_hash nibbles
  ok (record {
    key = key;
    value = collected.1;
    proof_nodes = collected.0;
    root_hash = trie.root_hash;
  })

-- The check of the last node, if it is a leaf: its part of the key is compared with the whole key.
unfoldable pub check_leaf : TrieNode → Bytes → Option Bytes → Result TrieError (Unit {0})
check_leaf empty key expected_value = ok tt
check_leaf (extension prefix next_hash) key expected_value = ok tt
check_leaf (branch children value) key expected_value = ok tt
check_leaf (leaf key_end value) key expected_value = elim (Hash-discrete key_end key) [
  | no p ↦ err (trie_error "Key mismatch in leaf")
  | yes p ↦ elim expected_value [
    | none ↦ err (trie_error "Value mismatch in leaf")
    | some expected ↦ elim (Hash-discrete expected value) [
      | yes q ↦ ok tt
      | no q ↦ err (trie_error "Value mismatch in leaf")
    ]
  ]
]

-- `proof.value == expected_value`
unfoldable pub same_value : Option Bytes → Option Bytes → Bool
same_value none none = true
same_value none (some w) = false
same_value (some v) none = false
same_value (some v) (some w) = elim (Hash-discrete v w) [ yes p ↦ true | no p ↦ false ]

module _ (hash : TrieNode → Hash) where
  -- The loop from the last node but one to the first, with the key that remains and the hash so far.
  unfoldable pub climb : List TrieNode → Bytes → Hash → Option Bytes → Result TrieError Hash
  climb [] remaining_key current_hash expected_value = ok current_hash
  climb (empty ∷ above) remaining_key current_hash expected_value =
      err (trie_error "Unexpected node type in proof")
  climb (leaf key_end value ∷ above) remaining_key current_hash expected_value =
      err (trie_error "Unexpected node type in proof")
  climb (extension prefix next_hash ∷ above) remaining_key current_hash expected_value =
      let rest =
        climb above (drop (length prefix) remaining_key) (hash (extension prefix next_hash))
          expected_value in
      elim (starts_with remaining_key prefix) [
        | false ↦ err (trie_error "Extension key mismatch")
        | true ↦ elim (Hash-discrete next_hash current_hash) [
          | yes p ↦ rest
          | no p ↦ err (trie_error "Extension hash mismatch")
        ]
      ]
  climb (branch children none ∷ above) [] current_hash (some expected) =
      err (trie_error "Branch value mismatch")
  climb (branch children none ∷ above) [] current_hash none =
      climb above [] (hash (branch children none)) none
  climb (branch children (some value) ∷ above) [] current_hash expected_value =
      climb above [] (hash (branch children (some value))) expected_value
  climb (branch children value ∷ above) (first_nibble ∷ remaining_key) current_hash expected_value =
      let rest = climb above remaining_key (hash (branch children value)) expected_value in
      elim (get_elem? children first_nibble) [
        | none ↦ err panics
        | some none ↦ err (trie_error "Branch child mismatch")
        | some (some child) ↦ elim (Hash-discrete child current_hash) [
          | yes p ↦ rest
          | no p ↦ err (trie_error "Branch child mismatch")
        ]
      ]

  -- The nodes are taken from the last to the first.
  unfoldable pub compute_root_from_proof :
      Bytes → Option Bytes → List TrieNode → Result TrieError Hash
  unfolding check_leaf climb
  compute_root_from_proof key_nibbles expected_value proof_nodes = elim (reverse proof_nodes) [
    | [] ↦ err (trie_error "Empty proof")
    | last ∷ above ↦ do
      _ ← check_leaf last key_nibbles expected_value
      climb above key_nibbles (hash last) expected_value
  ]

  unfoldable pub verify_proof : MerkleProof → Option Bytes → Result TrieError Bool
  unfolding compute_root_from_proof same_value bytes_to_nibbles
  verify_proof proof expected_value = do
    computed_root ←
        compute_root_from_proof (bytes_to_nibbles proof.key) expected_value proof.proof_nodes
    ok (elim (Hash-discrete computed_root proof.root_hash) [
      | yes p ↦ same_value proof.value expected_value
      | no p ↦ false
    ])
