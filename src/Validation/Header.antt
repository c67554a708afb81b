-- ===== src/Validation/Header.antt =====
-- A block's header against its parent (rusty-consensus/src/validation.rs), and the proof of work
-- (rusty-consensus/src/pow.rs).
use rusty_coin.Common.{ℕ, ◌+◌, ◌-◌, ◌%◌, Bool, false, ◌||◌, none, some, ltb, leb, ◌==◌}
use rusty_coin.Common.Result.{◌>>◌}
use rusty_coin.Common.Words.{u64_mod}
use rusty_coin.Types.Tx.{Hash}
use rusty_coin.Types.Block.{Block, BlockHeader}
use rusty_coin.Merkle.Tree.{calculate_merkle_root_from_transactions}
use rusty_coin.Pow.Compact.{compact_to_target}
use rusty_coin.Slashing.Ticket.{same_hash}
use rusty_coin.Validation.Context.{
  Checked, ValidationContext, require, block_hash, unsupported_version, invalid_previous_block_hash,
  invalid_merkle_root, invalid_proof, timestamp_too_far_in_future, timestamp_too_old,
  invalid_proof_of_work,
}

abbrev pub difficulty_adjustment_interval : ℕ
difficulty_adjustment_interval = 2016

-- `(height - 1) % 2016 == 0` in `u64`, where 0 - 1 wraps around.
unfoldable pub is_adjustment_height : ℕ → Bool
is_adjustment_height height =
    (height + (u64_mod - 1)) % u64_mod % difficulty_adjustment_interval == 0

module _ (c : ValidationContext) where
  -- The root is that of these transactions; it is found for every list of them.
  unfoldable pub has_merkle_root : Hash → Block → Bool
  has_merkle_root root block =
      elim (calculate_merkle_root_from_transactions c.enc block.transactions) [
        | none ↦ false
        | some r ↦ same_hash root r
      ]

  -- The header is serialised without its nonce.
  unfoldable pub meets_target : BlockHeader → ℕ → Bool
  unfolding compact_to_target
  meets_target header bits =
      leb (c.oxide_hash (c.serialize_header (record header { nonce = 0 })) header.nonce)
        (compact_to_target bits)

  unfoldable pub verify_pow : BlockHeader → ℕ → Checked (Unit {0})
  unfolding meets_target
  verify_pow header bits = require (meets_target header bits) invalid_proof_of_work

  unfoldable pub validate_block_header : BlockHeader → Block → ℕ → Checked (Unit {0})
  unfolding has_merkle_root verify_pow is_adjustment_height
  validate_block_header header previous_block current_time = do
    require (header.version == 1) (unsupported_version header.version)
    require (same_hash header.previous_block_hash (block_hash c previous_block))
        invalid_previous_block_hash
    require (has_merkle_root header.merkle_root previous_block) invalid_merkle_root
    require
        (is_adjustment_height ((previous_block.header.height + 1) % u64_mod)
          || header.difficulty_target == previous_block.header.difficulty_target)
        (invalid_proof "Difficulty target mismatch")
    require (leb header.timestamp ((current_time + 7200) % u64_mod)) timestamp_too_far_in_future
    require (ltb previous_block.header.timestamp header.timestamp) timestamp_too_old
    verify_pow header header.difficulty_target
