-- ===== src/Merkle/Tree.antt =====
-- The two Merkle roots, which differ in how they hash a pair and in what they make of no hashes.
use rusty_coin.Common.{
  ℕ, zero, suc, List, [], ◌∷◌, ◌++◌, Option, none, some, length, map, replicate,
}
use rusty_coin.Types.Tx.{Hash}
use rusty_coin.Types.Transaction.{Transaction}
use rusty_coin.Types.Block.{Block, Encoding, txid}

-- One round of the loop: `level.chunks(2)`, hashed; a chunk of one is paired with itself.
unfoldable pub next_level : (Hash → Hash → Hash) → List Hash → List Hash
next_level pair [] = []
next_level pair (left ∷ []) = pair left left ∷ []
next_level pair (left ∷ right ∷ level) = pair left right ∷ next_level pair level

-- `while level.len() > 1`, then `level[0]`. Fuel for so many rounds; `none` where it runs out and on
-- no hashes, where the index is out of range.
unfoldable pub reduce : (Hash → Hash → Hash) → ℕ → List Hash → Option Hash
reduce pair fuel [] = none
reduce pair fuel (root ∷ []) = some root
reduce pair zero (left ∷ right ∷ level) = none
reduce pair (suc fuel) (left ∷ right ∷ level) =
    reduce pair fuel (pair left right ∷ next_level pair level)

-- `calculate_merkle_root` of pow.rs; `none` is the panic on no hashes.
unfoldable pub calculate_merkle_root : (Hash → Hash → Hash) → List Hash → Option Hash
calculate_merkle_root pair hashes = reduce pair (length hashes) hashes

-- `hash_pair` of pow.rs: two rounds of BLAKE3.
unfoldable pub hash_pair : Encoding → Hash → Hash → Hash
hash_pair enc left right = enc.blake3 (enc.blake3 (left ++ right))

-- `block_merkle_root`; `none` is `EmptyBlock`.
unfoldable pub block_merkle_root : Encoding → Block → Option Hash
block_merkle_root enc block = elim block.transactions [
  | [] ↦ none
  | tx ∷ txs ↦ calculate_merkle_root (hash_pair enc) (map (txid enc) (tx ∷ txs))
]

abbrev zero_hash : Hash
zero_hash = replicate 32 0

-- One round of BLAKE3 over both.
unfoldable pub hash_combined : Encoding → Hash → Hash → Hash
hash_combined enc left right = enc.blake3 (left ++ right)

unfoldable pub calculate_merkle_root_from_hashes : Encoding → List Hash → Option Hash
calculate_merkle_root_from_hashes enc [] = some zero_hash
calculate_merkle_root_from_hashes enc (hash ∷ []) = some hash
calculate_merkle_root_from_hashes enc (hash ∷ other ∷ hashes) =
    calculate_merkle_root (hash_combined enc) (hash ∷ other ∷ hashes)

-- `Transaction::hash` is the identifier where the transaction can be serialised.
unfoldable pub calculate_merkle_root_from_transactions : Encoding → List Transaction → Option Hash
calculate_merkle_root_from_transactions enc txs =
    calculate_merkle_root_from_hashes enc (map (txid enc) txs)
