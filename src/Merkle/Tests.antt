-- ===== src/Merkle/Tests.antt =====
-- The roots of a few hashes, where the hash of a pair is the pair written out: two lists that differ
-- in where a hash ends have the same root.
use rusty_coin.Common.{ℕ, List, [], ◌∷◌, ◌++◌, some, ◌≡◌, ◌⊎◌, refl}
use rusty_coin.Types.Tx.{Hash}
use rusty_coin.Merkle.Tree.{next_level, reduce, calculate_merkle_root}
use rusty_coin.Merkle.Proofs.{
  Collision, hashed, calculate_merkle_root-total, calculate_merkle_root-Collision,
}

abbrev written_out : Hash → Hash → Hash
written_out a b = a ++ b

abbrev leaf : ℕ → Hash
leaf n = n ∷ []

abbrev leaves : List Hash
leaves = leaf 5 ∷ leaf 6 ∷ leaf 7 ∷ []

abbrev other_leaves : List Hash
other_leaves = (5 ∷ 6 ∷ []) ∷ [] ∷ leaf 7 ∷ []

abbrev root : Hash
root = 5 ∷ 6 ∷ 7 ∷ 7 ∷ []

root_of_three : calculate_merkle_root written_out leaves ≡ some root
unfolding calculate_merkle_root reduce next_level
root_of_three = refl

other_root_of_three : calculate_merkle_root written_out other_leaves ≡ some root
unfolding calculate_merkle_root reduce next_level
other_root_of_three = refl

calculate_merkle_root-total_example :
    (calculate_merkle_root written_out (leaf 5 ∷ []) ≡ some (leaf 5))
    × ((r : Hash) × (calculate_merkle_root written_out leaves ≡ some r)
        × (calculate_merkle_root written_out (next_level written_out leaves) ≡ some r))
calculate_merkle_root-total_example =
    calculate_merkle_root-total written_out (leaf 5) (leaf 6) (leaf 7 ∷ [])

calculate_merkle_root-Collision_example :
    (leaves ≡ other_leaves)
    ⊎ Collision written_out (hashed written_out 3 leaves) (hashed written_out 3 other_leaves)
calculate_merkle_root-Collision_example =
    calculate_merkle_root-Collision written_out leaves other_leaves root refl root_of_three
      other_root_of_three
