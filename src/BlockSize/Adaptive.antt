-- ===== src/BlockSize/Adaptive.antt =====
-- The calculator of the limit (rusty-consensus/src/adaptive_block_size.rs).
use rusty_coin.Common.{
  ℕ, ◌+◌, ◌-◌, ◌/◌, ◌%◌, min, max, List, [], ◌∷◌, Option, none, some, length, take, get_elem?, ltb,
  leb, ◌==◌, if◌then◌else◌,
}
use rusty_coin.Common.Result.{Result, ok, err, ◌>>=◌}
use rusty_coin.Common.Sorting.{sort_by}
use rusty_coin.Common.Words.{u64_mod}
use rusty_coin.Types.Block.{Block}

-- The two factors are applied in `f64`: `grown` is the product with one plus the growth factor, cut
-- to a `u64`, and `shrunk` that with one minus the shrink factor.
pub record AdaptiveBlockSizeParams : Type 0 where
  pub initial_max_block_size_bytes : ℕ
  pub median_calculation_period_blocks : ℕ
  pub grown : ℕ → ℕ
  pub shrunk : ℕ → ℕ
  pub absolute_hard_max_block_size_bytes : ℕ
  pub min_max_block_size_bytes : ℕ
  pub sig_ops_byte_cost : ℕ

-- `block_sizes` has the newest size first.
pub record AdaptiveBlockSizeCalculator : Type 0 where
  pub params : AdaptiveBlockSizeParams
  pub block_sizes : List ℕ
  pub current_adaptive_max_size : ℕ

pub data BlockSizeError : Type 0 where
  block_too_large : (size limit : ℕ) → BlockSizeError
  serialization_error : BlockSizeError

unfoldable pub new_calculator : AdaptiveBlockSizeParams → AdaptiveBlockSizeCalculator
new_calculator params = record {
  params = params;
  block_sizes = [];
  current_adaptive_max_size = params.initial_max_block_size_bytes;
}

-- The oldest sizes are dropped while there are more than those of a period.
unfoldable pub add_block_size : ℕ → AdaptiveBlockSizeCalculator → AdaptiveBlockSizeCalculator
add_block_size block_size calculator = record calculator {
  block_sizes =
      take calculator.params.median_calculation_period_blocks (block_size ∷ calculator.block_sizes);
}

-- `sizes[i]`, which is in range where it is used.
abbrev pub size_at : List ℕ → ℕ → ℕ
size_at sizes i = elim (get_elem? sizes i) [ none ↦ 0 | some size ↦ size ]

-- The median of the sorted sizes.
unfoldable pub median : List ℕ → ℕ
median sizes =
    if length sizes % 2 == 0
    then (size_at sizes (length sizes / 2 - 1) + size_at sizes (length sizes / 2)) % u64_mod / 2
    else size_at sizes (length sizes / 2)

unfoldable pub calculate_median_block_size : AdaptiveBlockSizeCalculator → ℕ
unfolding median sort_by
calculate_median_block_size calculator =
    if length calculator.block_sizes == 0
    then calculator.params.initial_max_block_size_bytes
    else median (sort_by leb calculator.block_sizes)

unfoldable pub calculate_potential_limit : ℕ → AdaptiveBlockSizeCalculator → ℕ
calculate_potential_limit median_actual_size calculator =
    if ltb calculator.current_adaptive_max_size median_actual_size
    then calculator.params.grown median_actual_size
    else if ltb median_actual_size calculator.current_adaptive_max_size
    then calculator.params.shrunk median_actual_size
    else calculator.current_adaptive_max_size

unfoldable pub apply_hard_limits : ℕ → AdaptiveBlockSizeParams → ℕ
apply_hard_limits potential_limit params =
    min (max potential_limit params.min_max_block_size_bytes)
      params.absolute_hard_max_block_size_bytes

-- The limit that an adjustment sets.
unfoldable pub adjusted : AdaptiveBlockSizeCalculator → ℕ
unfolding calculate_median_block_size calculate_potential_limit apply_hard_limits
adjusted calculator =
    apply_hard_limits
      (calculate_potential_limit (calculate_median_block_size calculator) calculator)
      calculator.params

-- The calculator after `calculate_adaptive_max_block_size`, which gives its limit, except at height
-- 0, where it gives the initial one. The period is not zero.
unfoldable pub calculate_adaptive_max_block_size :
    ℕ → AdaptiveBlockSizeCalculator → AdaptiveBlockSizeCalculator
unfolding adjusted
calculate_adaptive_max_block_size block_height calculator =
    if block_height == 0
    then calculator
    else if block_height % calculator.params.median_calculation_period_blocks == 0
    then record calculator { current_adaptive_max_size = adjusted calculator }
    else calculator

unfoldable pub calculate_max_sig_ops_per_block : AdaptiveBlockSizeCalculator → ℕ
calculate_max_sig_ops_per_block calculator =
    calculator.current_adaptive_max_size / calculator.params.sig_ops_byte_cost

-- The first argument is the length of bincode's encoding, none where it fails.
unfoldable pub calculate_block_size : (Block → Option ℕ) → Block → Result BlockSizeError ℕ
calculate_block_size block_size block = elim (block_size block) [
  | none ↦ err serialization_error
  | some size ↦ ok size
]

unfoldable pub validate_block_size :
    (Block → Option ℕ) → Block → AdaptiveBlockSizeCalculator → Result BlockSizeError (Unit {0})
unfolding calculate_block_size
validate_block_size block_size block calculator = do
  size ← calculate_block_size block_size block
  if ltb calculator.current_adaptive_max_size size
      then err (block_too_large size calculator.current_adaptive_max_size)
      else ok tt

unfoldable pub update_with_block :
    (Block → Option ℕ)
    → Block
    → ℕ
    → AdaptiveBlockSizeCalculator
    → Result BlockSizeError AdaptiveBlockSizeCalculator
unfolding calculate_block_size add_block_size calculate_adaptive_max_block_size
update_with_block block_size block block_height calculator = do
  size ← calculate_block_size block_size block
  ok (calculate_adaptive_max_block_size block_height (add_block_size size calculator))

-- The loop over the blocks, which are followed by this many others.
unfoldable pub update_with_blocks :
    (Block → Option ℕ)
    → ℕ
    → List Block
    → AdaptiveBlockSizeCalculator
    → Result BlockSizeError AdaptiveBlockSizeCalculator
unfolding update_with_block
update_with_blocks block_size current_height [] calculator = ok calculator
update_with_blocks block_size current_height (block ∷ blocks) calculator = do
  calculator' ← update_with_block block_size block (current_height - length blocks) calculator
  update_with_blocks block_size current_height blocks calculator'

unfoldable pub from_block_history :
    (Block → Option ℕ)
    → AdaptiveBlockSizeParams
    → List Block
    → ℕ
    → Result BlockSizeError AdaptiveBlockSizeCalculator
unfolding update_with_blocks new_calculator
from_block_history block_size params blocks current_height =
    update_with_blocks block_size current_height blocks (new_calculator params)

unfoldable pub reset_calculator : AdaptiveBlockSizeCalculator → AdaptiveBlockSizeCalculator
unfolding new_calculator
reset_calculator calculator = new_calculator calculator.params

pub record AdaptiveBlockSizeStats : Type 0 where
  pub current_adaptive_max_size : ℕ
  pub median_block_size : ℕ
  pub average_block_size : ℕ
  pub blocks_collected : ℕ
  pub max_sig_ops_per_block : ℕ

-- The sum of the sizes, which wraps around.
unfoldable pub sum_sizes : List ℕ → ℕ
sum_sizes [] = 0
sum_sizes (size ∷ sizes) = (size + sum_sizes sizes) % u64_mod

unfoldable pub get_statistics : AdaptiveBlockSizeCalculator → AdaptiveBlockSizeStats
unfolding calculate_median_block_size calculate_max_sig_ops_per_block sum_sizes
get_statistics calculator = record {
  current_adaptive_max_size = calculator.current_adaptive_max_size;
  median_block_size =
      if length calculator.block_sizes == 0 then 0 else calculate_median_block_size calculator;
  average_block_size =
      if length calculator.block_sizes == 0
      then 0
      else sum_sizes calculator.block_sizes / length calculator.block_sizes;
  blocks_collected = length calculator.block_sizes;
  max_sig_ops_per_block = calculate_max_sig_ops_per_block calculator;
}
