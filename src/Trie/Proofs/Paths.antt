-- ===== src/Trie/Proofs/Paths.antt =====
-- The path that a proof collects.
use rusty_coin.Common.{
  ℕ, zero, suc, ◌≡◌, ◌⊎◌, inl, inr, refl, sym, Option, none, some, List, [], ◌∷◌, arith, length,
  drop, get_elem?, Option-cases,
}
use rusty_coin.Common.HashMap.{get}
use rusty_coin.Common.Result.{Result, ok, err, ◌>>=◌}
use rusty_coin.Common.Words.{Bytes}
use rusty_coin.Types.Tx.{Hash, hash_key}
use rusty_coin.Trie.Node.{TrieNode, empty, leaf, extension, branch, TrieError, bytes_to_nibbles}
use rusty_coin.Trie.Store.{Nodes, MerklePatriciaTrie, get_recursive, get_value}
use rusty_coin.Trie.Proof.{MerkleProof, push_node, collect_proof_nodes, generate_proof}

-- What a collection succeeds with: the value of the lookup.
abbrev value_of : Result TrieError (List TrieNode × Option Bytes) → Result TrieError (Option Bytes)
value_of (ok (nodes, value)) = ok value
value_of (err e) = err e

value_of-push_node :
    (node : TrieNode) (r : Result TrieError (List TrieNode × Option Bytes))
    → value_of (push_node node r) ≡ value_of r
value_of-push_node node (ok (nodes, value)) = refl
value_of-push_node node (err e) = refl

value_of-collect_proof_nodes :
    (fuel : ℕ) (nodes : Nodes) (h : Hash) (key : Bytes)
    → value_of (collect_proof_nodes fuel nodes h key) ≡ get_recursive fuel nodes h key
unfolding collect_proof_nodes get_recursive
value_of-collect_proof_nodes zero nodes h key = refl
value_of-collect_proof_nodes (suc fuel) nodes h [] = elim (Option-cases (get h nodes)) [
  | inl missing ↦ ground (arith, missing)
  | inr (empty, e) ↦ ground (arith, e)
  | inr (leaf key_end value, e) ↦ ground (arith, e)
  | inr (branch children value, e) ↦ ground (arith, e)
  | inr (extension prefix next, e) ↦ ground (
    arith,
    e,
    value_of-collect_proof_nodes fuel nodes next (drop (length prefix) []),
    value_of-push_node (extension prefix next)
        (collect_proof_nodes fuel nodes next (drop (length prefix) [])),
  )
]
value_of-collect_proof_nodes (suc fuel) nodes h (n ∷ key) = elim (Option-cases (get h nodes)) [
  | inl missing ↦ ground (arith, missing)
  | inr (empty, e) ↦ ground (arith, e)
  | inr (leaf key_end value, e) ↦ ground (arith, e)
  | inr (extension prefix next, e) ↦ ground (
    arith,
    e,
    value_of-collect_proof_nodes fuel nodes next (drop (length prefix) (n ∷ key)),
    value_of-push_node (extension prefix next)
        (collect_proof_nodes fuel nodes next (drop (length prefix) (n ∷ key))),
  )
  | inr (branch children value, e) ↦ elim (Option-cases (get_elem? children n)) [
    | inl missing ↦ ground (arith, e, missing)
    | inr (none, f) ↦ ground (arith, e, f)
    | inr (some child, f) ↦ ground (
      arith,
      e,
      f,
      value_of-collect_proof_nodes fuel nodes child key,
      value_of-push_node (branch children value) (collect_proof_nodes fuel nodes child key),
    )
  ]
]

abbrev as_proof :
    Bytes → Hash → Result TrieError (List TrieNode × Option Bytes) → Result TrieError MerkleProof
as_proof key root_hash r =
    r >>= λ c. ok (record { key = key; value = c.1; proof_nodes = c.0; root_hash = root_hash })

collected :
    (key root : Bytes) (r : Result TrieError (List TrieNode × Option Bytes))
    (g : Result TrieError (Option Bytes))
    → value_of r ≡ g
    → ((e : TrieError) × (g ≡ err e) × (as_proof key root r ≡ err e))
      ⊎ ((v : Option Bytes) × (proof : MerkleProof) × (g ≡ ok v)
          × (as_proof key root r ≡ ok proof)
          × (proof.value ≡ v)
          × (proof.root_hash ≡ root))
collected key root (err e) g same = inl (e, sym same, refl)
collected key root (ok (ns, v)) g same = inr (
  v,
  record { key = key; value = v; proof_nodes = ns; root_hash = root },
  sym same,
  refl,
  refl,
  refl,
)

-- A proof is generated exactly where the lookup succeeds, and holds the value that is looked up.
pub generate_proof-get_value :
    (trie : MerklePatriciaTrie) (key : Bytes)
    → ((e : TrieError) × (get_value trie key ≡ err e) × (generate_proof trie key ≡ err e))
      ⊎ ((v : Option Bytes) × (proof : MerkleProof) × (get_value trie key ≡ ok v)
          × (generate_proof trie key ≡ ok proof)
          × (proof.value ≡ v)
          × (proof.root_hash ≡ trie.root_hash))
unfolding get_value generate_proof
generate_proof-get_value trie key =
    let nibbles = bytes_to_nibbles key in
    let same =
      value_of-collect_proof_nodes (suc (length nibbles)) trie.nodes trie.root_hash nibbles in
    collected key trie.root_hash
      (collect_proof_nodes (suc (length nibbles)) trie.nodes trie.root_hash nibbles)
      (get_recursive (suc (length nibbles)) trie.nodes trie.root_hash nibbles) same
