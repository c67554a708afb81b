-- ===== src/Pow/Proofs/Rounding.antt =====
-- The compact form of a target read back.
use native.Mathlib.Nat.{
  pow-suc, one-le-pow, div-mul-le_self, lt-div-mul-add, div-div-eq-div-mul, div-lt_iff_lt-mul,
  le-div_iff_mul-le, mod-eq_of_lt,
}
use mathlib.Core.Path.{subst}
use rusty_coin.Common.{
  ℕ, zero, suc, ◌+◌, ◌-◌, ◌*◌, ◌/◌, ◌%◌, ◌^◌, ◌≤◌, ◌<◌, ◌≡◌, ◌⊎◌, sym, ap, ◌∙◌, arith, false,
  Bool-cases, inl, inr, ◌==◌, leb,
}
use rusty_coin.Pow.Target.{u256_mod}
use rusty_coin.Pow.Compact.{compact_to_target, byte_length, leading_bits, pack, target_to_compact}
use rusty_coin.Pow.Proofs.Bytes.{byte_length_bounds, pow-bytes, pow-unit}

-- The value of a compact form with an exponent of four or more.
compact_to_target-large :
    (k m : ℕ)
    → k ≤ 29
    → 0 < m
    → m < 2 ^ 23
    → compact_to_target (m + (k + 4) * 2 ^ 24) ≡ m * 2 ^ (8 * (k + 1)) % u256_mod
unfolding compact_to_target
compact_to_target-large k m a b c =
    let e : (m + (k + 4) * 2 ^ 24) / 2 ^ 24 ≡ k + 4 = omega arith in
    let f : (m + (k + 4) * 2 ^ 24) % 2 ^ 23 ≡ m = omega arith in
    let g : (m + (k + 4) * 2 ^ 24) / 2 ^ 23 % 2 ≡ 0 = omega arith in
    let h : 8 * ((k + 4) - 3) % 256 ≡ 8 * (k + 1) = omega arith in rw (e, f, g, h) (ground arith)

-- The mantissa that is packed, with its size.
pack_cases :
    (size bits : ℕ)
    → bits < 2 ^ 24
    → ((bits < 2 ^ 23) × (pack size bits ≡ bits + size * 2 ^ 24))
      ⊎ ((2 ^ 23 ≤ bits) × (pack size bits ≡ bits / 256 + (size + 1) * 2 ^ 24))
unfolding pack
pack_cases size bits a = ground arith

-- A word that fits is not changed by its moduli.
leading_bits-large :
    (k t : ℕ) → t / 256 ^ (k + 1) < 2 ^ 24 → leading_bits (k + 4) t ≡ t / 256 ^ (k + 1)
unfolding leading_bits
leading_bits-large k t h =
    let e : (k + 4) - 3 ≡ k + 1 = omega arith in
    let p : 2 ^ (8 * (k + 1)) ≡ 256 ^ (k + 1) = pow-bytes (k + 1) in
    let q : leb (k + 4) 3 ≡ false = ground arith in rw (q, e, p) (omega arith)

-- What is lost by a target that is cut to a multiple of a unit.
abbrev IsRounded : ℕ → ℕ → Type 0
IsRounded t d = (d ≤ t) × ((t - d) * 2 ^ 15 ≤ t)

cut :
    (t q unit : ℕ)
    → t < u256_mod
    → q * unit ≤ t
    → t < q * unit + unit
    → unit * 2 ^ 15 ≤ t
    → IsRounded t (q * unit % u256_mod)
cut t q unit b l h u =
    let e : q * unit % u256_mod ≡ q * unit = mod-eq_of_lt (omega (arith, l, b)) in
    rw e (l, omega (arith, l, h, u))

suc_form : (k : ℕ) → k + 1 + 1 ≡ suc (k + 1)
suc_form k = omega arith

sum_form : (k : ℕ) → k + 4 + 1 ≡ k + 1 + 4
sum_form k = omega arith

IsRounded-large :
    (k t : ℕ)
    → k ≤ 28
    → t < u256_mod
    → t < 256 ^ (k + 4)
    → 256 ^ (k + 4) ≤ 256 * t
    → IsRounded t (compact_to_target (pack (k + 4) (leading_bits (k + 4) t)))
IsRounded-large k t a b c d =
    let p : 256 ^ (k + 4) ≡ 2 ^ 24 * 256 ^ (k + 1) = pow-unit k in
    let pos : 0 < 256 ^ (k + 1) = one-le-pow (k + 1) 256 (omega arith) in
    let b24 : t / 256 ^ (k + 1) < 2 ^ 24 = (div-lt_iff_lt-mul pos).1 (omega (arith, p, c)) in
    let b16 : 2 ^ 16 ≤ t / 256 ^ (k + 1) = (le-div_iff_mul-le pos).1 (omega (arith, p, d)) in
    let l = leading_bits-large k t b24 in
    elim (pack_cases (k + 4) (t / 256 ^ (k + 1)) b24) [
      | inl (n, e) ↦
          subst (IsRounded t)
            (sym (
              ap (λ bits. compact_to_target (pack (k + 4) bits)) l
              ∙ ap compact_to_target e
              ∙ compact_to_target-large k (t / 256 ^ (k + 1)) (omega arith) (omega arith) n
              ∙ ap (λ unit. t / 256 ^ (k + 1) * unit % u256_mod) (pow-bytes (k + 1))))
            (cut t (t / 256 ^ (k + 1)) (256 ^ (k + 1)) b (div-mul-le_self t (256 ^ (k + 1)))
              (lt-div-mul-add pos) (omega (arith, p, d)))
      | inr (n, e) ↦
          let u : 256 ^ (k + 1 + 1) ≡ 256 ^ (k + 1) * 256 =
            ap (λ n. 256 ^ n) (suc_form k) ∙ pow-suc 256 (k + 1) in
          let v : t / 256 ^ (k + 1) / 256 ≡ t / 256 ^ (k + 1 + 1) =
            div-div-eq-div-mul t (256 ^ (k + 1)) 256 ∙ ap (λ unit. t / unit) (sym u) in
          let w : 2 ^ 23 * 256 ^ (k + 1) ≤ t = (le-div_iff_mul-le pos).0 n in
          let pos' : 0 < 256 ^ (k + 1 + 1) = one-le-pow (k + 1 + 1) 256 (omega arith) in
          subst (IsRounded t)
            (sym (
              ap (λ bits. compact_to_target (pack (k + 4) bits)) l
              ∙ ap compact_to_target e
              ∙ ap (λ x. compact_to_target (t / 256 ^ (k + 1) / 256 + x * 2 ^ 24)) (sum_form k)
              ∙ compact_to_target-large (k + 1) (t / 256 ^ (k + 1) / 256) (omega arith)
                  (omega arith) (omega arith)
              ∙ ap (λ unit. t / 256 ^ (k + 1) / 256 * unit % u256_mod) (pow-bytes (k + 1 + 1))
              ∙ ap (λ q. q * 256 ^ (k + 1 + 1) % u256_mod) v))
            (cut t (t / 256 ^ (k + 1 + 1)) (256 ^ (k + 1 + 1)) b
              (div-mul-le_self t (256 ^ (k + 1 + 1))) (lt-div-mul-add pos') (omega (arith, u, w)))
    ]

-- The value of a compact form with an exponent of three at most.
compact_to_target-small :
    (e m : ℕ)
    → e ≤ 3
    → 0 < m
    → m < 2 ^ 23
    → compact_to_target (m + e * 2 ^ 24) ≡ m / 2 ^ (8 * (3 - e))
unfolding compact_to_target
compact_to_target-small e m a b c =
    let d : (m + e * 2 ^ 24) / 2 ^ 24 ≡ e = omega arith in
    let f : (m + e * 2 ^ 24) % 2 ^ 23 ≡ m = omega arith in
    let g : (m + e * 2 ^ 24) / 2 ^ 23 % 2 ≡ 0 = omega arith in rw (d, f, g) (ground arith)

-- What is read back of a mantissa, by the value that is read and that of the next size.
IsRounded-bits :
    (size bits t v w : ℕ)
    → bits < 2 ^ 24
    → leading_bits size t ≡ bits
    → ((bits < 2 ^ 23) → compact_to_target (bits + size * 2 ^ 24) ≡ v)
    → ((2 ^ 23 ≤ bits) → compact_to_target (bits / 256 + (size + 1) * 2 ^ 24) ≡ w)
    → ((bits < 2 ^ 23) → IsRounded t v)
    → ((2 ^ 23 ≤ bits) → IsRounded t w)
    → IsRounded t (compact_to_target (pack size (leading_bits size t)))
IsRounded-bits size bits t v w b l p q r s = elim (pack_cases size bits b) [
  | inl (n, e) ↦
      subst (IsRounded t)
        (sym (ap (λ x. compact_to_target (pack size x)) l ∙ ap compact_to_target e ∙ p n)) (r n)
  | inr (n, e) ↦
      subst (IsRounded t)
        (sym (ap (λ x. compact_to_target (pack size x)) l ∙ ap compact_to_target e ∙ q n)) (s n)
]

-- A target of one, two or three bytes.
IsRounded-1 :
    (t : ℕ) → 0 < t → t < 256 → IsRounded t (compact_to_target (pack 1 (leading_bits 1 t)))
unfolding leading_bits
IsRounded-1 t a b =
    IsRounded-bits 1 (t * 65536) t (t * 65536 / 2 ^ 16) (t * 65536 / 256 / 2 ^ 8) (omega arith)
      (omega arith) (λ n. compact_to_target-small 1 (t * 65536) (omega arith) (omega arith) n)
      (λ n. compact_to_target-small 2 (t * 65536 / 256) (omega arith) (omega arith) (omega arith))
      (λ n. (omega arith, omega arith)) (λ n. (omega arith, omega arith))

IsRounded-2 :
    (t : ℕ) → 256 ≤ t → t < 2 ^ 16 → IsRounded t (compact_to_target (pack 2 (leading_bits 2 t)))
unfolding leading_bits
IsRounded-2 t a b =
    IsRounded-bits 2 (t * 256) t (t * 256 / 2 ^ 8) (t * 256 / 256 / 2 ^ 0) (omega arith)
      (omega arith) (λ n. compact_to_target-small 2 (t * 256) (omega arith) (omega arith) n)
      (λ n. compact_to_target-small 3 (t * 256 / 256) (omega arith) (omega arith) (omega arith))
      (λ n. (omega arith, omega arith)) (λ n. (omega arith, omega arith))

IsRounded-3 :
    (t : ℕ) → 2 ^ 16 ≤ t → t < 2 ^ 24 → IsRounded t (compact_to_target (pack 3 (leading_bits 3 t)))
unfolding leading_bits
IsRounded-3 t a b =
    IsRounded-bits 3 t t (t / 2 ^ 0) (t / 256 * 2 ^ 8 % u256_mod) (omega arith) (omega arith)
      (λ n. compact_to_target-small 3 t (omega arith) (omega arith) n)
      (λ n. compact_to_target-large 0 (t / 256) (omega arith) (omega arith) (omega arith))
      (λ n. (omega arith, omega arith)) (λ n. (omega arith, omega arith))

rounded :
    (s t : ℕ)
    → s ≤ 32
    → 0 < t
    → t < u256_mod
    → t < 256 ^ s
    → 256 ^ s ≤ 256 * t
    → IsRounded t (compact_to_target (pack s (leading_bits s t)))
rounded zero t a z b c d = ground arith
rounded (suc zero) t a z b c d = IsRounded-1 t z c
rounded (suc (suc zero)) t a z b c d = IsRounded-2 t (omega arith) c
rounded (suc (suc (suc zero))) t a z b c d = IsRounded-3 t (omega arith) c
rounded (suc (suc (suc (suc k)))) t a z b c d =
    let e : k + 4 ≡ suc (suc (suc (suc k))) = omega arith in
    subst
      (λ s.
        t < 256 ^ s
        → 256 ^ s ≤ 256 * t
        → IsRounded t (compact_to_target (pack s (leading_bits s t))))
      e (IsRounded-large k t (omega arith) b) c d

-- A target written in compact form and read back is at most the target, and what is lost, times
-- 2 ^ 15, is at most the target.
pub compact_to_target-target_to_compact :
    (target : ℕ)
    → target < u256_mod
    → (compact_to_target (target_to_compact target) ≤ target)
      × ((target - compact_to_target (target_to_compact target)) * 2 ^ 15 ≤ target)
unfolding target_to_compact compact_to_target
compact_to_target-target_to_compact target h = elim (Bool-cases (target == 0)) [
  | inl z ↦
      let e : target ≡ 0 = ground (arith, z) in
      subst (λ t. IsRounded t (compact_to_target (target_to_compact t))) (sym e)
        (omega arith, omega arith)
  | inr z ↦
      let e : target_to_compact target
          ≡ pack (byte_length 32 target) (leading_bits (byte_length 32 target) target) =
        ground (arith, z) in
      let (a, b, d) = byte_length_bounds 32 target (omega arith) in
      subst (λ c. IsRounded target (compact_to_target c)) (sym e)
        (rounded (byte_length 32 target) target b (ground (arith, z)) h a (ground (arith, z, d)))
]
