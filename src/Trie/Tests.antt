-- ===== src/Trie/Tests.antt =====
-- Two keys of one byte, which part at their first half-byte, and a third that an extension loses.
use rusty_coin.Common.{
  ℕ, ◌+◌, ◌≡◌, Bool, true, false, List, [], ◌∷◌, ◌++◌, Option, none, some, refl, arith, length, set,
}
use rusty_coin.Common.HashMap.{get, insert, remove}
use rusty_coin.Common.Result.{Result, ok, err, ◌>>=◌}
use rusty_coin.Common.Words.{Bytes}
use rusty_coin.Types.Tx.{Hash, hash_key}
use rusty_coin.Trie.Node.{
  TrieNode, empty, leaf, extension, branch, TrieError, trie_error, no_children,
}
use rusty_coin.Trie.Store.{MerklePatriciaTrie, new_trie, insert_value, get_value}
use rusty_coin.Trie.Proof.{MerkleProof, generate_proof, verify_proof}
use rusty_coin.Trie.Proofs.Mismatch.{generate_proof-mismatch}

-- Tells the nodes below apart.
abbrev hash : TrieNode → Hash
hash empty = 0 ∷ []
hash (leaf key_end value) = 1 ∷ key_end ++ value
hash (extension prefix next) = 2 ∷ prefix ++ next
hash (branch children value) = 3 ∷ []

abbrev grow : List Bytes → Result TrieError MerklePatriciaTrie
grow [] = ok (new_trie hash)
grow (key ∷ keys) = grow keys >>= λ trie. insert_value hash trie key (9 ∷ [])

abbrev fork : List (Option Hash)
fork = set (set no_children 1 (some (1 ∷ 2 ∷ 9 ∷ []))) 3 (some (1 ∷ 4 ∷ 9 ∷ []))

abbrev two_keys : MerklePatriciaTrie
two_keys = record {
  root_hash = 3 ∷ [];
  nodes =
      (3 ∷ [], branch fork none)
      ∷ (1 ∷ 4 ∷ 9 ∷ [], leaf (4 ∷ []) (9 ∷ []))
      ∷ (1 ∷ 2 ∷ 9 ∷ [], leaf (2 ∷ []) (9 ∷ []))
      ∷ (0 ∷ [], empty)
      ∷ [];
  root_node = some (branch fork none);
}

grown : grow ((0x34 ∷ []) ∷ (0x12 ∷ []) ∷ []) ≡ ok two_keys
unfolding insert_value get new_trie insert hash_key rusty_coin.Common.ℕ_discrete remove
grown = refl

held : get_value two_keys (0x12 ∷ []) ≡ ok (some (9 ∷ []))
unfolding get_value get hash_key rusty_coin.Common.ℕ_discrete
held = refl

abbrev path : MerkleProof
path = record {
  key = 0x12 ∷ [];
  value = some (9 ∷ []);
  proof_nodes = branch fork none ∷ leaf (2 ∷ []) (9 ∷ []) ∷ [];
  root_hash = 3 ∷ [];
}

generated : generate_proof two_keys (0x12 ∷ []) ≡ ok path
unfolding generate_proof get hash_key rusty_coin.Common.ℕ_discrete
generated = refl

rooted : get two_keys.root_hash two_keys.nodes ≡ some (branch fork none)
unfolding get hash_key rusty_coin.Common.ℕ_discrete
rooted = refl

generate_proof-mismatch_example :
    verify_proof hash path (some (9 ∷ [])) ≡ err (trie_error "Key mismatch in leaf")
generate_proof-mismatch_example =
    generate_proof-mismatch hash two_keys (0x12 ∷ []) (9 ∷ []) fork none path (2 ∷ []) (9 ∷ [])
      (branch fork none ∷ []) (some (9 ∷ [])) (omega arith) rooted generated refl refl

-- The two keys share a first half-byte, so the root is an extension; the third key is not inserted.
abbrev lost_after : Result TrieError (Option Bytes)
lost_after =
    grow ((0x34 ∷ []) ∷ (0x13 ∷ []) ∷ (0x12 ∷ []) ∷ []) >>= λ trie. get_value trie (0x34 ∷ [])

lost : lost_after ≡ ok none
unfolding insert_value get new_trie insert hash_key rusty_coin.Common.ℕ_discrete get_value
    rusty_coin.Trie.Node.starts_with
lost = refl
