-- ===== src/Pow/Proofs/Adjustment.antt =====
-- The bounds of the difficulty adjustment.
use native.Mathlib.Nat.{mul-le-mul_left, div-le_self}
use rusty_coin.Common.{ℕ, ◌*◌, ◌/◌, ◌≤◌, ◌<◌, min, max, some, ◌≡◌, ◌⊎◌, refl, arith}
use rusty_coin.Common.Words.{u64_mod}
use rusty_coin.Pow.Target.{
  u256_mod, u256_mul, u256_div, precision_factor, clamp_target, clamped_time_ratio,
  calculate_new_target,
}

-- The ratio lies between the two limits, and is computed where neither divisor is zero.
clamped_time_ratio_bounds :
    (actual expected factor : ℕ)
    → actual < u64_mod
    → 0 < expected
    → 0 < factor
    → factor < u64_mod
    → (ratio : ℕ) × (clamped_time_ratio actual expected factor ≡ some ratio)
      × (precision_factor / factor ≤ ratio)
      × (ratio ≤ precision_factor * factor)
      × (ratio
          ≡ max
              (min (actual * precision_factor / expected) (precision_factor * factor))
              (precision_factor / factor))
unfolding clamped_time_ratio u256_mul u256_div
clamped_time_ratio_bounds actual expected factor a e f g =
    let low : precision_factor / factor ≤ precision_factor = div-le_self precision_factor factor in
    (
      max (min (actual * precision_factor / expected) (precision_factor * factor))
          (precision_factor / factor),
      ground arith,
      omega arith,
      omega (arith, low),
      refl,
    )

clamp_target-eq :
    (low high t : ℕ)
    → ((low ≡ 0) × (clamp_target low high t ≡ min t high))
      ⊎ ((0 < low) × (clamp_target low high t ≡ min (min t low) high))
unfolding clamp_target
clamp_target-eq low high t = ground arith

precision_mul : (a b : ℕ) → a * (precision_factor * b) ≡ precision_factor * (a * b)
precision_mul a b = grind arith

-- The adjustment succeeds where the old target, times the factor and the precision, fits 256 bits,
-- and neither the expected time nor the factor is zero. Before the limits the target is at most the
-- factor times the old one, and at least the old one over the factor, in billionths rounded down.
-- The new target is the least of it, the maximum, and the minimum difficulty's target unless that
-- is zero, which sets no limit.
pub calculate_new_target_bounds :
    (previous actual expected factor low high : ℕ)
    → actual < u64_mod
    → 0 < expected
    → 0 < factor
    → factor < u64_mod
    → previous * (precision_factor * factor) < u256_mod
    → (target : ℕ) × (unlimited : ℕ) × (calculate_new_target previous actual expected factor low
          high
        ≡ some target)
      × (unlimited ≤ previous * factor)
      × (previous * (precision_factor / factor) / precision_factor ≤ unlimited)
      × (((low ≡ 0) × (target ≡ min unlimited high))
          ⊎ ((0 < low) × (target ≡ min (min unlimited low) high)))
unfolding calculate_new_target u256_mul
calculate_new_target_bounds previous actual expected factor low high a e f g fits =
    let (ratio, computed, above, below, _) =
      clamped_time_ratio_bounds actual expected factor a e f g in
    let upper : previous * ratio ≤ previous * (precision_factor * factor) =
      mul-le-mul_left previous below in
    let lower : previous * (precision_factor / factor) ≤ previous * ratio =
      mul-le-mul_left previous above in
    let assoc : previous * (precision_factor * factor) ≡ precision_factor * (previous * factor) =
      precision_mul previous factor in
    let t = previous * ratio / precision_factor in
    (
      clamp_target low high t,
      t,
      ground (arith, computed, upper),
      omega (arith, upper, assoc),
      omega (arith, lower),
      clamp_target-eq low high t,
    )
