-- ===== src/Pow/Target.antt =====
-- `calculate_new_target` (rusty-consensus/src/pow.rs). A `U256` is a natural number below 2 ^ 256,
-- whose product panics where it overflows and whose quotient panics where the divisor is zero.
use rusty_coin.Common.{
  ℕ, ◌*◌, ◌/◌, ◌^◌, min, max, not, ◌&&◌, Option, none, some, ltb, ◌==◌, if◌then◌else◌,
}

abbrev pub u256_mod : ℕ
u256_mod = 2 ^ 256

unfoldable pub u256_mul : ℕ → ℕ → Option ℕ
u256_mul a b = if ltb (a * b) u256_mod then some (a * b) else none

unfoldable pub u256_div : ℕ → ℕ → Option ℕ
u256_div a b = if b == 0 then none else some (a / b)

abbrev pub precision_factor : ℕ
precision_factor = 1000000000

-- The limits of the last two steps: the second one is none if it is zero.
unfoldable pub clamp_target : ℕ → ℕ → ℕ → ℕ
clamp_target min_difficulty_target max_target new_target =
    let limited =
      if ltb min_difficulty_target new_target && not (min_difficulty_target == 0)
      then min_difficulty_target
      else new_target in
    if ltb max_target limited then max_target else limited

-- The ratio of the times, in billionths, between one over the factor and the factor.
unfoldable pub clamped_time_ratio : ℕ → ℕ → ℕ → Option ℕ
unfolding u256_mul u256_div
clamped_time_ratio actual_time_span expected_time_span factor =
    elim (u256_mul actual_time_span precision_factor) [
      | none ↦ none
      | some numerator ↦ elim (u256_div numerator expected_time_span) [
        | none ↦ none
        | some time_ratio ↦ elim (u256_div precision_factor factor) [
          | none ↦ none
          | some min_ratio ↦ elim (u256_mul precision_factor factor) [
            | none ↦ none
            | some max_ratio ↦ some (max (min time_ratio max_ratio) min_ratio)
          ]
        ]
      ]
    ]

unfoldable pub calculate_new_target : ℕ → ℕ → ℕ → ℕ → ℕ → ℕ → Option ℕ
unfolding clamped_time_ratio u256_mul clamp_target
calculate_new_target previous_target actual_time_span expected_time_span factor
      min_difficulty_target max_target =
    elim (clamped_time_ratio actual_time_span expected_time_span factor) [
      | none ↦ none
      | some ratio ↦ elim (u256_mul previous_target ratio) [
        | none ↦ none
        | some product ↦
            some (clamp_target min_difficulty_target max_target (product / precision_factor))
      ]
    ]
