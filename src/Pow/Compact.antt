-- ===== src/Pow/Compact.antt =====
-- The compact form of a target (rusty-consensus/src/pow.rs). A `U256` is a natural number below
-- 2 ^ 256; a shift by a byte count is a product or a quotient by a power of two.
use rusty_coin.Common.{ℕ, zero, suc, ◌+◌, ◌-◌, ◌*◌, ◌/◌, ◌%◌, ◌^◌, Bool, ◌==◌, leb, if◌then◌else◌}
use rusty_coin.Common.Words.{u32_mod, u64_mod}
use rusty_coin.Pow.Target.{u256_mod}

-- The exponent, the mantissa's 23 bits and the sign bit of a compact form.
abbrev pub exponent : ℕ → ℕ
exponent compact = compact / 2 ^ 24

abbrev pub mantissa : ℕ → ℕ
mantissa compact = compact % 2 ^ 23

abbrev pub is_negative : ℕ → Bool
is_negative compact = compact / 2 ^ 23 % 2 == 1

-- The amount of a shift to the left is computed in a `u8`, where it wraps around.
unfoldable pub compact_to_target : ℕ → ℕ
compact_to_target compact =
    if mantissa compact == 0
    then 0
    else if is_negative compact
    then 0
    else if leb (exponent compact) 3
    then mantissa compact / 2 ^ (8 * (3 - exponent compact))
    else mantissa compact * 2 ^ (8 * (exponent compact - 3) % 256) % u256_mod

-- `(target.bits() + 7) / 8`: the number of bytes of a target below `256 ^ fuel`.
unfoldable pub byte_length : ℕ → ℕ → ℕ
byte_length zero target = 0
byte_length (suc fuel) target =
    let rest = byte_length fuel (target / 256) in if target == 0 then 0 else suc rest

-- The first 24 bits of a target of so many bytes.
unfoldable pub leading_bits : ℕ → ℕ → ℕ
leading_bits size target =
    if leb size 3
    then target % u32_mod * 2 ^ (8 * (3 - size)) % u32_mod
    else target / 2 ^ (8 * (size - 3)) % u64_mod % u32_mod

-- The mantissa and the size; a mantissa with the sign bit set moves one byte down.
unfoldable pub pack : ℕ → ℕ → ℕ
pack size bits =
    if is_negative bits
    then bits / 256 % 2 ^ 23 + (size + 1) * 2 ^ 24
    else bits % 2 ^ 23 + size * 2 ^ 24

-- A `U256` has 32 bytes at most.
unfoldable pub target_to_compact : ℕ → ℕ
unfolding byte_length leading_bits pack
target_to_compact target =
    if target == 0
    then 0
    else let size = byte_length 32 target in pack size (leading_bits size target)
