-- ===== src/Pow/Tests.antt =====
-- An adjustment of the target, halved by a period that took half its time.
use rusty_coin.Common.{ℕ, ◌+◌, ◌-◌, ◌*◌, ◌/◌, ◌^◌, ◌≤◌, ◌<◌, min, some, ◌≡◌, ◌⊎◌, refl, arith}
use rusty_coin.Pow.Target.{precision_factor, calculate_new_target}
use rusty_coin.Pow.Compact.{compact_to_target, target_to_compact}
use rusty_coin.Pow.Proofs.Rounding.{compact_to_target-target_to_compact}
use rusty_coin.Pow.Proofs.Adjustment.{calculate_new_target_bounds}

halved : calculate_new_target 1000 604800 1209600 4 0 5000 ≡ some 500
unfolding calculate_new_target
halved = refl

clamped_at_the_factor : calculate_new_target 1000 100 1209600 4 0 5000 ≡ some 250
unfolding calculate_new_target
clamped_at_the_factor = refl

calculate_new_target_bounds_example :
    (target : ℕ) × (unlimited : ℕ) × (calculate_new_target 1000 604800 1209600 4 0 5000
      ≡ some target)
    × (unlimited ≤ 1000 * 4)
    × (1000 * (precision_factor / 4) / precision_factor ≤ unlimited)
    × ((◌≡◌ {A = ℕ} 0 0 × (target ≡ min unlimited 5000))
        ⊎ ((0 < 0) × (target ≡ min (min unlimited 0) 5000)))
calculate_new_target_bounds_example =
    calculate_new_target_bounds 1000 604800 1209600 4 0 5000 (omega arith) (omega arith)
      (omega arith) (omega arith) (omega arith)

-- A shift by 256 bits wraps around to none.
wrapped_shift : compact_to_target 0x23000001 ≡ 1
unfolding compact_to_target
wrapped_shift = refl

cut_target : target_to_compact (2 ^ 200 + 12345) ≡ 0x1a010000
unfolding target_to_compact
cut_target = refl

compact_to_target-target_to_compact_example :
    (compact_to_target (target_to_compact (2 ^ 200 + 12345)) ≤ 2 ^ 200 + 12345)
    × ((2 ^ 200 + 12345 - compact_to_target (target_to_compact (2 ^ 200 + 12345))) * 2 ^ 15
        ≤ 2 ^ 200 + 12345)
compact_to_target-target_to_compact_example =
    compact_to_target-target_to_compact (2 ^ 200 + 12345) (omega arith)
