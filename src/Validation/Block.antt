-- ===== src/Validation/Block.antt =====
-- A block against the chain: `validate_block` and `validate_block_comprehensive`
-- (rusty-consensus/src/validation.rs).
use rusty_coin.Common.{
  ℕ, ◌+◌, ◌-◌, ◌*◌, ◌%◌, Bool, false, not, ◌&&◌, ◌||◌, List, [], ◌∷◌, Option, none, some, length,
  get_elem?, ltb, leb, ◌==◌, if◌then◌else◌,
}
use rusty_coin.Common.Result.{ok, err, ◌>>=◌, ◌>>◌}
use rusty_coin.Common.Words.{u64_mod}
use rusty_coin.Types.Transaction.{Transaction, get_inputs}
use rusty_coin.Types.Block.{Block}
use rusty_coin.Script.Validate.{is_empty}
use rusty_coin.Pow.Target.{calculate_new_target, u256_mod}
use rusty_coin.Pow.Compact.{compact_to_target, target_to_compact}
use rusty_coin.Slashing.Ticket.{same_hash, is_zero_hash}
use rusty_coin.Validation.Context.{
  Checked, ValidationContext, panicked, require, reject, ok_or, header_hash, missing_previous_block,
  invalid_previous_block_hash, invalid_merkle_root, invalid_proof, serialization_error,
  block_too_large, no_coinbase_transaction, invalid_coinbase_input, merkle_root_mismatch,
  invalid_state_root,
}
use rusty_coin.Validation.Header.{
  difficulty_adjustment_interval, is_adjustment_height, has_merkle_root, validate_block_header,
}
use rusty_coin.Validation.Transactions.{validate_transactions, starts_with_coinbase}
use rusty_coin.Validation.Fees.{total_fees, check_reward}
use rusty_coin.Validation.Votes.{validate_pos_votes}

abbrev pub target_block_time_seconds : ℕ
target_block_time_seconds = 150

abbrev pub max_difficulty_adjustment_factor : ℕ
max_difficulty_adjustment_factor = 4

-- The compact target that the block after these must have at an adjustment, from the last block and
-- the first of the period; `none` is a panic.
unfoldable pub expected_difficulty : Block → Block → Option ℕ
unfolding calculate_new_target compact_to_target target_to_compact
expected_difficulty last first =
    elim (calculate_new_target (compact_to_target last.header.difficulty_target)
      (last.header.timestamp - first.header.timestamp)
      (difficulty_adjustment_interval * target_block_time_seconds) max_difficulty_adjustment_factor
      0 (u256_mod - 1)) [ none ↦ none | some target ↦ some (target_to_compact target) ]

-- At an adjustment: the expected target where a whole period of blocks is given.
unfoldable pub check_adjustment : Block → Block → List Block → Checked (Unit {0})
unfolding expected_difficulty
check_adjustment block prev_block previous_blocks =
    elim (get_elem? previous_blocks (difficulty_adjustment_interval - 1)) [
      | some first ↦ elim (expected_difficulty prev_block first) [
        | none ↦ err panicked
        | some expected ↦
            require (block.header.difficulty_target == expected)
              (invalid_proof "Difficulty target mismatch at adjustment block")
      ]
      | none ↦
          require
            (ltb difficulty_adjustment_interval block.header.height
              || not (block.header.difficulty_target == 0))
            (invalid_proof "Difficulty target cannot be zero")
    ]

-- The last step of `validate_block_comprehensive`.
unfoldable pub check_difficulty : Block → Block → List Block → Checked (Unit {0})
unfolding is_adjustment_height check_adjustment
check_difficulty block prev_block previous_blocks =
    if is_adjustment_height block.header.height && ltb 1 block.header.height
    then check_adjustment block prev_block previous_blocks
    else if block.header.height == 0
    then require (not (block.header.difficulty_target == 0))
        (invalid_proof "Genesis block difficulty target cannot be zero")
    else require (block.header.difficulty_target == prev_block.header.difficulty_target)
        (invalid_proof "Difficulty target should match previous block for non-adjustment block")

-- `block.transactions[0].get_inputs().len() == 1`
unfoldable pub has_one_coinbase_input : List Transaction → Bool
has_one_coinbase_input [] = false
has_one_coinbase_input (tx ∷ txs) = length (get_inputs tx) == 1

module _ (c : ValidationContext) where
  -- The block's own root is the one in its header.
  unfoldable pub has_own_merkle_root : Block → Bool
  unfolding has_merkle_root
  has_own_merkle_root block = has_merkle_root c block.header.merkle_root block

  -- `validate_block` after the first check.
  unfoldable pub validate_after : Block → Block → ℕ → Checked (Unit {0})
  unfolding has_own_merkle_root validate_block_header
  validate_after block prev_block current_time = do
    require (same_hash block.header.previous_block_hash (header_hash c prev_block.header))
        invalid_previous_block_hash
    require (block.header.height == (prev_block.header.height + 1) % u64_mod)
        (invalid_proof "Block height mismatch")
    require (has_own_merkle_root block) invalid_merkle_root
    validate_block_header c block.header prev_block current_time

  unfoldable pub validate_block : Block → List Block → ℕ → Checked (Unit {0})
  unfolding validate_after
  validate_block block [] current_time = reject missing_previous_block
  validate_block block (prev_block ∷ blocks) current_time =
      validate_after block prev_block current_time

  unfoldable pub check_block_size : Block → Checked (Unit {0})
  check_block_size block = do
    size ← ok_or (c.block_size block) serialization_error
    require (leb size c.params.max_block_size) (block_too_large size c.params.max_block_size)

  -- The coinbase transaction and the block's root.
  unfoldable pub check_coinbase_and_root : Block → Checked (Unit {0})
  unfolding has_own_merkle_root starts_with_coinbase has_one_coinbase_input
  check_coinbase_and_root block = do
    require (starts_with_coinbase block.transactions) no_coinbase_transaction
    require (has_one_coinbase_input block.transactions) invalid_coinbase_input
    require (has_own_merkle_root block) merkle_root_mismatch

  -- The fees, and the reward that they allow.
  unfoldable pub check_rewards : Block → ℕ → Checked (Unit {0})
  unfolding total_fees check_reward
  check_rewards block current_time = do
    fees ← total_fees c block.header.height current_time block.transactions
    check_reward c fees block.transactions

  unfoldable pub check_votes_and_state : Block → Checked (Unit {0})
  unfolding validate_pos_votes
  check_votes_and_state block = do
    (if is_empty block.ticket_votes
        then ok tt
        else validate_pos_votes c.ticket_voting block.header.height block.ticket_votes)
    require (not (is_zero_hash block.header.state_root) || block.header.height == 0)
        invalid_state_root

  unfoldable pub validate_block_comprehensive : Block → List Block → ℕ → Checked (Unit {0})
  unfolding validate_block_header check_block_size validate_transactions check_coinbase_and_root
      check_rewards check_votes_and_state check_difficulty
  validate_block_comprehensive block [] current_time = reject missing_previous_block
  validate_block_comprehensive block (prev_block ∷ blocks) current_time = do
    validate_block_header c block.header prev_block current_time
    check_block_size block
    validate_transactions c block.transactions block.header.height current_time
    check_coinbase_and_root block
    check_rewards block current_time
    check_votes_and_state block
    check_difficulty block prev_block (prev_block ∷ blocks)
