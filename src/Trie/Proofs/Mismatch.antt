-- ===== src/Trie/Proofs/Mismatch.antt =====
-- The verification of a proof whose path ends in a leaf.
use mathlib.Core.List.{reverse, reverse-append}
use mathlib.Core.Path.{subst}
use rusty_coin.Common.{
  ℕ, zero, suc, ◌*◌, ◌-◌, ◌≤◌, ◌<◌, ◌≡◌, ◌≢◌, inl, inr, refl, sym, ap, ◌∙◌, Option, none, some,
  List, [], ◌∷◌, ◌++◌, arith, length, drop, length-drop, get_elem?, Option-cases, Bool-cases,
}
use rusty_coin.Common.HashMap.{get}
use rusty_coin.Common.Result.{Result, ok, err, >>=-eq-ok}
use rusty_coin.Common.Words.{Bytes}
use rusty_coin.Types.Tx.{Hash, hash_key, Hash-discrete}
use rusty_coin.Trie.Node.{
  TrieNode, empty, leaf, extension, branch, TrieError, trie_error, bytes_to_nibbles, starts_with,
}
use rusty_coin.Trie.Store.{Nodes, MerklePatriciaTrie}
use rusty_coin.Trie.Proof.{
  MerkleProof, push_node, collect_proof_nodes, generate_proof, check_leaf, compute_root_from_proof,
  verify_proof,
}

reverse-cons : (x : TrieNode) (xs : List TrieNode) → reverse (x ∷ xs) ≡ reverse xs ++ x ∷ []
reverse-cons x xs = reverse-append (x ∷ []) xs

-- The length of the part of the key in the last node, if that is a leaf.
abbrev end_of : TrieNode → ℕ
end_of empty = 0
end_of (leaf key_end value) = length key_end
end_of (extension prefix next) = 0
end_of (branch children value) = 0

abbrev last_end : List TrieNode → ℕ
last_end [] = 0
last_end (node ∷ []) = end_of node
last_end (node ∷ other ∷ nodes) = last_end (other ∷ nodes)

last_end-cons :
    (node : TrieNode) (nodes : List TrieNode)
    → end_of node ≡ 0
    → last_end (node ∷ nodes) ≡ last_end nodes
last_end-cons node [] e = e
last_end-cons node (other ∷ nodes) e = refl

first_of :
    (l : List TrieNode) (x a : TrieNode) (above : List TrieNode)
    → l ≢ []
    → l ++ x ∷ [] ≡ a ∷ above
    → (rest : List TrieNode) × (l ≡ a ∷ rest)
first_of [] x a above n e = absurd (n refl)
first_of (y ∷ l) x a above n e = (l, cc e)

append-ne-nil : (l : List TrieNode) (x : TrieNode) → l ++ x ∷ [] ≢ []
append-ne-nil [] x e = cc e
append-ne-nil (y ∷ l) x e = cc e

last_end-reverse :
    (nodes above : List TrieNode) (key_end w : Bytes)
    → reverse nodes ≡ leaf key_end w ∷ above
    → last_end nodes ≡ length key_end
last_end-reverse [] above key_end w e = absurd (cc e)
last_end-reverse (x ∷ []) above key_end w e = let same : x ≡ leaf key_end w = cc e in ap end_of same
last_end-reverse (x ∷ y ∷ nodes) above key_end w e =
    let (rest, f) =
      first_of (reverse (y ∷ nodes)) x (leaf key_end w) above
        (λ n. append-ne-nil (reverse nodes) y (sym (reverse-cons y nodes) ∙ n))
        (sym (reverse-cons x (y ∷ nodes)) ∙ e) in
    last_end-reverse (y ∷ nodes) rest key_end w f

push_node-ok :
    (node : TrieNode) (r : Result TrieError (List TrieNode × Option Bytes)) (nodes : List TrieNode)
    (v : Bytes)
    → push_node node r ≡ ok (nodes, some v)
    → (rest : List TrieNode) × (r ≡ ok (rest, some v)) × (node ∷ rest ≡ nodes)
push_node-ok node (ok (rest, value)) nodes v e = (rest, ground arith, ground arith)
push_node-ok node (err x) nodes v e = absurd (cc e)

-- A node that is no leaf, before a path.
pushed :
    (node : TrieNode) (r : Result TrieError (List TrieNode × Option Bytes)) (path : List TrieNode)
    (v : Bytes) (n : ℕ)
    → end_of node ≡ 0
    → ((rest : List TrieNode) → r ≡ ok (rest, some v) → last_end rest ≤ n)
    → push_node node r ≡ ok (path, some v)
    → last_end path ≤ n
pushed node r path v n no_leaf bound e =
    let (rest, f, same) = push_node-ok node r path v e in
    subst (λ x. last_end x ≤ n) same (omega (arith, last_end-cons node rest no_leaf, bound rest f))

branch-last_end-le :
    (fuel : ℕ) (nodes : Nodes) (h : Hash) (key : Bytes) (children : List (Option Hash))
    (value : Option Bytes) (path : List TrieNode) (v : Bytes)
    → ((child : Hash) (k : Bytes) (rest : List TrieNode)
        → collect_proof_nodes fuel nodes child k ≡ ok (rest, some v)
        → last_end rest ≤ length k)
    → get h nodes ≡ some (branch children value)
    → collect_proof_nodes (suc fuel) nodes h key ≡ ok (path, some v)
    → last_end path ≤ length key - 1
unfolding collect_proof_nodes
branch-last_end-le fuel nodes h [] children value path v ih e c =
    let same : branch children value ∷ [] ≡ path = ground (arith, e, c) in
    subst (λ q. last_end q ≤ 0) same (omega arith)
branch-last_end-le fuel nodes h (n ∷ key) children value path v ih e c =
    elim (Option-cases (get_elem? children n)) [
      | inl missing ↦ absurd (ground (arith, e, missing))
      | inr (none, f) ↦ absurd (ground (arith, e, f))
      | inr (some child, f) ↦
          pushed (branch children value) (collect_proof_nodes fuel nodes child key) path v
            (length (n ∷ key) - 1) refl (λ rest g. omega (arith, ih child key rest g))
            (ground (arith, e, f, c))
    ]

collect_proof_nodes-last_end-le :
    (fuel : ℕ) (nodes : Nodes) (h : Hash) (key : Bytes) (path : List TrieNode) (v : Bytes)
    → collect_proof_nodes fuel nodes h key ≡ ok (path, some v)
    → last_end path ≤ length key
unfolding collect_proof_nodes
collect_proof_nodes-last_end-le zero nodes h key path v c = absurd (cc c)
collect_proof_nodes-last_end-le (suc fuel) nodes h key path v c =
    elim (Option-cases (get h nodes)) [
      | inl missing ↦ absurd (ground (arith, missing))
      | inr (empty, e) ↦ absurd (ground (arith, e))
      | inr (leaf key_end value, e) ↦ elim (Hash-discrete key_end key) [
        | yes p ↦
            let same : leaf key_end value ∷ [] ≡ path = ground (arith, e, c) in
            subst (λ q. last_end q ≤ length key) same (omega (arith, ap length p))
        | no p ↦ absurd (ground (arith, e))
      ]
      | inr (extension prefix next, e) ↦ elim (Bool-cases (starts_with key prefix)) [
        | inl t ↦
            let rest_key = drop (length prefix) key in
            pushed (extension prefix next) (collect_proof_nodes fuel nodes next rest_key) path v
              (length key) refl
              (λ rest f. omega (
                arith,
                collect_proof_nodes-last_end-le fuel nodes next rest_key rest v f,
                length-drop (length prefix) key,
              ))
              (ground (arith, e, t, c))
        | inr t ↦ absurd (ground (arith, e, t))
      ]
      | inr (branch children value, e) ↦ omega (
        arith,
        branch-last_end-le fuel nodes h key children value path v
            (λ child k rest g. collect_proof_nodes-last_end-le fuel nodes child k rest v g) e c,
      )
    ]

check_leaf-mismatch :
    (key key_end w : Bytes) (expected : Option Bytes)
    → length key_end < length key
    → check_leaf (leaf key_end w) key expected ≡ err (trie_error "Key mismatch in leaf")
unfolding check_leaf
check_leaf-mismatch key key_end w expected short = elim (Hash-discrete key_end key) [
  | yes p ↦ absurd (omega (arith, ap length p))
  | no p ↦ ground arith
]

length-bytes_to_nibbles : (bytes : Bytes) → length (bytes_to_nibbles bytes) ≡ 2 * length bytes
unfolding bytes_to_nibbles
length-bytes_to_nibbles [] = omega arith
length-bytes_to_nibbles (byte ∷ bytes) = omega (arith, length-bytes_to_nibbles bytes)

-- Where the root is a branch, the proof of a key that is not empty, whose value a leaf holds, is
-- generated and never verifies: whatever value is expected, the leaf's part of the key is compared
-- with the whole key, and differs.
pub generate_proof-mismatch :
    (hash : TrieNode → Hash) (trie : MerklePatriciaTrie) (key v : Bytes)
    (children : List (Option Hash)) (value : Option Bytes) (proof : MerkleProof) (key_end w : Bytes)
    (above : List TrieNode) (expected : Option Bytes)
    → 0 < length key
    → get trie.root_hash trie.nodes ≡ some (branch children value)
    → generate_proof trie key ≡ ok proof
    → proof.value ≡ some v
    → reverse proof.proof_nodes ≡ leaf key_end w ∷ above
    → verify_proof hash proof expected ≡ err (trie_error "Key mismatch in leaf")
unfolding generate_proof verify_proof compute_root_from_proof
generate_proof-mismatch hash trie key v children value proof key_end w above expected long root made
      held ends =
    let nibbles = bytes_to_nibbles key in
    let ((path, found), c, same) =
      >>=-eq-ok (collect_proof_nodes (suc (length nibbles)) trie.nodes trie.root_hash nibbles) _
        made in
    let path_eq : path ≡ proof.proof_nodes = ground (arith, same) in
    let found_eq : found ≡ some v = ground (arith, same, held) in
    let key_eq : key ≡ proof.key = ground (arith, same) in
    let bound =
      branch-last_end-le (length nibbles) trie.nodes trie.root_hash nibbles children value path v
        (λ child k rest g.
          collect_proof_nodes-last_end-le (length nibbles) trie.nodes child k rest v g)
        root (c ∙ ap (λ o. ok (path, o)) found_eq) in
    let at_end = last_end-reverse path above key_end w (ap reverse path_eq ∙ ends) in
    let short : length key_end < length nibbles =
      omega (arith, bound, at_end, length-bytes_to_nibbles key) in
    ground (arith, ends, check_leaf-mismatch nibbles key_end w expected short, key_eq)
