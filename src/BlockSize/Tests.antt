-- ===== src/BlockSize/Tests.antt =====
-- A limit of 100 over periods of two blocks, which two blocks of 40 bytes lower.
use rusty_coin.Common.{ℕ, ◌+◌, ◌-◌, ◌/◌, ◌≤◌, ◌≡◌, refl, arith, List, [], ◌∷◌, Option, some}
use rusty_coin.Common.Result.{ok, err}
use rusty_coin.Types.Block.{Block}
use rusty_coin.BlockSize.Adaptive.{
  AdaptiveBlockSizeParams, AdaptiveBlockSizeCalculator, block_too_large, new_calculator, adjusted,
  validate_block_size, update_with_block, from_block_history, get_statistics,
}
use rusty_coin.BlockSize.Proofs.{IsSensible, Reach, start, next, current_adaptive_max_size-le}

abbrev params : AdaptiveBlockSizeParams
params = record {
  initial_max_block_size_bytes = 100;
  median_calculation_period_blocks = 2;
  grown = λ n. n + n / 10;
  shrunk = λ n. n - n / 20;
  absolute_hard_max_block_size_bytes = 1000;
  min_max_block_size_bytes = 20;
  sig_ops_byte_cost = 20;
}

params-IsSensible : IsSensible params
params-IsSensible = record {
  period_pos = omega arith;
  min_le_initial = omega arith;
  min_le_hard = omega arith;
  shrunk_le = λ n. omega arith;
}

abbrev block : Block
block = record {
  header = record {
    version = 1;
    height = 1;
    previous_block_hash = [];
    merkle_root = [];
    state_root = [];
    timestamp = 0;
    difficulty_target = 0;
    nonce = 0;
  };
  ticket_votes = [];
  transactions = [];
}

abbrev forty : Block → Option ℕ
forty b = some 40

abbrev after : ℕ → List ℕ → AdaptiveBlockSizeCalculator
after limit sizes = record {
  params = params;
  block_sizes = sizes;
  current_adaptive_max_size = limit;
}

too_large :
    validate_block_size (λ b. some 101) block (new_calculator params)
    ≡ err (block_too_large 101 100)
unfolding validate_block_size new_calculator
too_large = refl

-- A median above the limit, which no block that is accepted has, would raise it.
raised : adjusted (after 100 (120 ∷ 120 ∷ [])) ≡ 132
unfolding adjusted
raised = refl

from_two_blocks :
    from_block_history forty params (block ∷ block ∷ []) 2 ≡ ok (after 38 (40 ∷ 40 ∷ []))
unfolding from_block_history
from_two_blocks = refl

average_size : (get_statistics (after 38 (40 ∷ 41 ∷ []))).average_block_size ≡ 40
unfolding get_statistics
average_size = refl

first_step : Reach forty params 1 (after 100 (40 ∷ []))
unfolding validate_block_size new_calculator update_with_block
first_step = next block start refl refl

second_step : Reach forty params 2 (after 38 (40 ∷ 40 ∷ []))
unfolding validate_block_size update_with_block
second_step = next block first_step refl refl

current_adaptive_max_size-le_example : (20 ≤ 38) × (38 ≤ 100)
current_adaptive_max_size-le_example =
    current_adaptive_max_size-le forty params 2 (after 38 (40 ∷ 40 ∷ [])) params-IsSensible
      second_step
