-- ===== src/Pow/Proofs/Bytes.antt =====
-- The number of bytes of a target, and the powers that measure it.
use native.Mathlib.Nat.{pow-suc}
use rusty_coin.Common.{
  ℕ, zero, suc, ◌+◌, ◌*◌, ◌/◌, ◌^◌, ◌≤◌, ◌<◌, ◌≡◌, ◌⊎◌, refl, ap, ◌∙◌, arith, Bool-cases, inl, inr,
  ◌==◌,
}
use rusty_coin.Pow.Compact.{byte_length}

byte_length-zero : (fuel : ℕ) → byte_length fuel 0 ≡ 0
unfolding byte_length
byte_length-zero zero = refl
byte_length-zero (suc fuel) = refl

-- The number of bytes is the least that the target fits in.
pub byte_length_bounds :
    (fuel target : ℕ)
    → target < 256 ^ fuel
    → (target < 256 ^ byte_length fuel target)
      × (byte_length fuel target ≤ fuel)
      × ((target ≡ 0) ⊎ (256 ^ byte_length fuel target ≤ 256 * target))
unfolding byte_length
byte_length_bounds zero target h = (h, omega arith, inl (omega arith))
byte_length_bounds (suc fuel) target h = elim (Bool-cases (target == 0)) [
  | inl z ↦ ground (arith, z)
  | inr z ↦
      let q : target / 256 < 256 ^ fuel = omega (arith, pow-suc 256 fuel) in
      let (a, b, d) = byte_length_bounds fuel (target / 256) q in
      ground
        (arith, z, a, b, d, byte_length-zero fuel, pow-suc 256 (byte_length fuel (target / 256)))
]

-- A byte more is a factor of 256.
pow-add_8 : (n : ℕ) → 2 ^ (n + 8) ≡ 256 * 2 ^ n
pow-add_8 n =
    let e : n + 8 ≡ suc (suc (suc (suc (suc (suc (suc (suc n))))))) = omega arith in
    let a1 = pow-suc 2 n in
    let a2 = pow-suc 2 (suc n) in
    let a3 = pow-suc 2 (suc (suc n)) in
    let a4 = pow-suc 2 (suc (suc (suc n))) in
    let a5 = pow-suc 2 (suc (suc (suc (suc n)))) in
    let a6 = pow-suc 2 (suc (suc (suc (suc (suc n))))) in
    let a7 = pow-suc 2 (suc (suc (suc (suc (suc (suc n)))))) in
    let a8 = pow-suc 2 (suc (suc (suc (suc (suc (suc (suc n))))))) in
    ap (λ m. 2 ^ m) e ∙ omega (arith, a1, a2, a3, a4, a5, a6, a7, a8)

pub pow-bytes : (n : ℕ) → 2 ^ (8 * n) ≡ 256 ^ n
pow-bytes zero = refl
pow-bytes (suc n) =
    let e : 8 * suc n ≡ 8 * n + 8 = omega arith in
    ap (λ m. 2 ^ m) e ∙ omega (arith, pow-add_8 (8 * n), pow-bytes n, pow-suc 256 n)

pub pow-unit : (k : ℕ) → 256 ^ (k + 4) ≡ 2 ^ 24 * 256 ^ (k + 1)
pow-unit k =
    let e : k + 4 ≡ suc (suc (suc (k + 1))) = omega arith in
    ap (λ n. 256 ^ n) e
    ∙ omega (arith, pow-suc 256 (k + 1), pow-suc 256 (suc (k + 1)), pow-suc 256 (suc (suc (k + 1))))
