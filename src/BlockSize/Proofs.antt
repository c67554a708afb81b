-- ===== src/BlockSize/Proofs.antt =====
-- What the limit does over time.
use rusty_coin.Common.{
  ℕ, suc, zero, ◌-◌, ◌/◌, ◌%◌, ◌<◌, ◌≤◌, ◌≡◌, refl, ap, length-take, arith, ◌⊎◌, inl, inr, sym, ◌∙◌,
  ℕ_discrete, List, [], ◌∷◌, Option, length, take, All, leb,
}
use mathlib.Core.Path.{subst}
use native.Mathlib.Nat.{zero-mod, suc-mod, mod_self, mod-lt, mod-eq_of_lt}
use rusty_coin.Common.Result.{ok, Result-cases}
use rusty_coin.Common.Sorting.{sort_by, sort_by-All}
use rusty_coin.Types.Block.{Block}
use rusty_coin.BlockSize.Adaptive.{
  AdaptiveBlockSizeParams, AdaptiveBlockSizeCalculator, new_calculator, add_block_size, size_at,
  median, calculate_median_block_size, calculate_potential_limit, apply_hard_limits, adjusted,
  calculate_adaptive_max_block_size, calculate_block_size, validate_block_size, update_with_block,
}

size_at-le :
    (limit : ℕ) (sizes : List ℕ) (i : ℕ) → All (λ s. s ≤ limit) sizes → size_at sizes i ≤ limit
size_at-le limit [] i h = ground (arith)
size_at-le limit (s ∷ sizes) zero h = h.0
size_at-le limit (s ∷ sizes) (suc i) h = size_at-le limit sizes i h.1

median-le : (limit : ℕ) (sizes : List ℕ) → All (λ s. s ≤ limit) sizes → median sizes ≤ limit
unfolding median
median-le limit sizes h = ground (
  arith,
  size_at-le limit sizes (length sizes / 2 - 1) h,
  size_at-le limit sizes (length sizes / 2) h,
)

calculate_median_block_size-le :
    (limit : ℕ) (c : AdaptiveBlockSizeCalculator)
    → 0 < length c.block_sizes
    → All (λ s. s ≤ limit) c.block_sizes
    → calculate_median_block_size c ≤ limit
unfolding calculate_median_block_size
calculate_median_block_size-le limit c pos h = ground (
  arith,
  median-le limit (sort_by leb c.block_sizes) (sort_by-All leb (λ s. s ≤ limit) c.block_sizes h),
)

-- What is asked of the parameters: a period, the bounds in order, and a factor that shrinks.
pub record IsSensible (params : AdaptiveBlockSizeParams) : Type 0 where
  pub period_pos : 0 < params.median_calculation_period_blocks
  pub min_le_initial : params.min_max_block_size_bytes ≤ params.initial_max_block_size_bytes
  pub min_le_hard : params.min_max_block_size_bytes ≤ params.absolute_hard_max_block_size_bytes
  pub shrunk_le : (size : ℕ) → params.shrunk size ≤ size

adjusted-le :
    (c : AdaptiveBlockSizeCalculator)
    → IsSensible c.params
    → c.params.min_max_block_size_bytes ≤ c.current_adaptive_max_size
    → 0 < length c.block_sizes
    → All (λ s. s ≤ c.current_adaptive_max_size) c.block_sizes
    → (c.params.min_max_block_size_bytes ≤ adjusted c) × (adjusted c ≤ c.current_adaptive_max_size)
unfolding adjusted calculate_potential_limit apply_hard_limits
adjusted-le c sensible within pos h = ground (
  arith,
  sensible.min_le_hard,
  sensible.shrunk_le (calculate_median_block_size c),
  calculate_median_block_size-le c.current_adaptive_max_size c pos h,
)

take-take {ℓ} : {A : Type ℓ} (m n : ℕ) (xs : List A) → m ≤ n → take m (take n xs) ≡ take m xs
take-take zero n xs h = refl
take-take (suc m) zero xs h = absurd (omega (arith, h))
take-take (suc m) (suc n) [] h = refl
take-take (suc m) (suc n) (x ∷ xs) h = ap (◌∷◌ x) (take-take m n xs (omega (arith, h)))

-- The limit stays between the lower bound and the initial one, and the blocks since the last
-- adjustment keep it.
record IsKept (height : ℕ) (c : AdaptiveBlockSizeCalculator) : Type 0 where
  sensible : IsSensible c.params
  within : c.params.min_max_block_size_bytes ≤ c.current_adaptive_max_size
  bounded : c.current_adaptive_max_size ≤ c.params.initial_max_block_size_bytes
  recent :
      All
        (λ s. s ≤ c.current_adaptive_max_size)
        (take (height % c.params.median_calculation_period_blocks) c.block_sizes)

-- The chain grows by a block that passed its size check.
pub data Reach (block_size : Block → Option ℕ) (params : AdaptiveBlockSizeParams)
    : ℕ → AdaptiveBlockSizeCalculator → Type 0 where
  start : Reach block_size params 0 (new_calculator params)
  next :
      {height : ℕ} {c c' : AdaptiveBlockSizeCalculator} (block : Block)
      → Reach block_size params height c
      → validate_block_size block_size block c ≡ ok tt
      → update_with_block block_size block (suc height) c ≡ ok c'
      → Reach block_size params (suc height) c'

-- The next height either starts a period or is one further in it.
suc-mod-cases :
    (h p : ℕ)
    → 0 < p
    → ((suc h % p ≡ 0) × (suc (h % p) ≡ p)) ⊎ ((suc h % p ≡ suc (h % p)) × (suc (h % p) < p))
suc-mod-cases h p pos = elim (ℕ_discrete (suc (h % p)) p) [
  | yes e ↦ inl (suc-mod h p ∙ ap (λ k. k % p) e ∙ mod_self p, e)
  | no n ↦
      let below : suc (h % p) < p = ground (arith, n, mod-lt h pos) in
      inr (suc-mod h p ∙ mod-eq_of_lt below, below)
]

calculate_adaptive_max_block_size-adjusts :
    (h : ℕ) (c : AdaptiveBlockSizeCalculator)
    → suc h % c.params.median_calculation_period_blocks ≡ 0
    → calculate_adaptive_max_block_size (suc h) c
      ≡ record c { current_adaptive_max_size = adjusted c }
unfolding calculate_adaptive_max_block_size
calculate_adaptive_max_block_size-adjusts h c e = ground (arith, e)

calculate_adaptive_max_block_size-waits :
    (h k : ℕ) (c : AdaptiveBlockSizeCalculator)
    → suc h % c.params.median_calculation_period_blocks ≡ suc k
    → calculate_adaptive_max_block_size (suc h) c ≡ c
unfolding calculate_adaptive_max_block_size
calculate_adaptive_max_block_size-waits h k c e = ground (arith, e)

IsKept-adjust :
    (h size : ℕ) (c : AdaptiveBlockSizeCalculator)
    → IsKept h c
    → size ≤ c.current_adaptive_max_size
    → suc (h % c.params.median_calculation_period_blocks)
      ≡ c.params.median_calculation_period_blocks
    → suc h % c.params.median_calculation_period_blocks ≡ 0
    → IsKept (suc h) (record (add_block_size size c) {
      current_adaptive_max_size = adjusted (add_block_size size c);
    })
unfolding add_block_size
IsKept-adjust h size c kept fits e z =
    let fit =
      subst (λ n. All (λ s. s ≤ c.current_adaptive_max_size) (take n (size ∷ c.block_sizes))) e
        (fits, kept.recent) in
    let some_size : 0 < length (add_block_size size c).block_sizes = omega (
      arith,
      kept.sensible.period_pos,
      length-take c.params.median_calculation_period_blocks (size ∷ c.block_sizes),
    ) in
    let new_limit = adjusted-le (add_block_size size c) kept.sensible kept.within some_size fit in
    record {
      sensible = kept.sensible;
      within = new_limit.0;
      bounded = omega (arith, new_limit.1, kept.bounded);
      recent =
          subst
            (λ n.
              All (λ s. s ≤ adjusted (add_block_size size c))
                (take n (add_block_size size c).block_sizes))
            (sym z) tt;
    }

IsKept-wait :
    (h size : ℕ) (c : AdaptiveBlockSizeCalculator)
    → IsKept h c
    → size ≤ c.current_adaptive_max_size
    → suc (h % c.params.median_calculation_period_blocks)
      < c.params.median_calculation_period_blocks
    → suc h % c.params.median_calculation_period_blocks
      ≡ suc (h % c.params.median_calculation_period_blocks)
    → IsKept (suc h) (add_block_size size c)
unfolding add_block_size
IsKept-wait h size c kept fits below e = record {
  sensible = kept.sensible;
  within = kept.within;
  bounded = kept.bounded;
  recent =
      subst (All (λ s. s ≤ c.current_adaptive_max_size))
        (sym (
          ap (λ n. take n (add_block_size size c).block_sizes) e
          ∙ take-take (suc (h % c.params.median_calculation_period_blocks))
              c.params.median_calculation_period_blocks (size ∷ c.block_sizes)
              (omega (arith, below))))
        (fits, kept.recent);
}

IsKept-next :
    (h size : ℕ) (c : AdaptiveBlockSizeCalculator)
    → IsKept h c
    → size ≤ c.current_adaptive_max_size
    → IsKept (suc h) (calculate_adaptive_max_block_size (suc h) (add_block_size size c))
unfolding add_block_size
IsKept-next h size c kept fits =
    elim (suc-mod-cases h c.params.median_calculation_period_blocks kept.sensible.period_pos) [
      | inl (z, e) ↦
          subst (IsKept (suc h))
            (sym (calculate_adaptive_max_block_size-adjusts h (add_block_size size c) z))
            (IsKept-adjust h size c kept fits e z)
      | inr (e, below) ↦
          subst (IsKept (suc h))
            (sym (
              calculate_adaptive_max_block_size-waits h
                (h % c.params.median_calculation_period_blocks) (add_block_size size c) e))
            (IsKept-wait h size c kept fits below e)
    ]

-- What a block that passed its size check and was added amounts to.
update_with_block-eq-ok :
    (block_size : Block → Option ℕ) (block : Block) (height : ℕ)
    (c c' : AdaptiveBlockSizeCalculator)
    → validate_block_size block_size block c ≡ ok tt
    → update_with_block block_size block height c ≡ ok c'
    → (size : ℕ) × (size ≤ c.current_adaptive_max_size)
      × (calculate_adaptive_max_block_size height (add_block_size size c) ≡ c')
unfolding validate_block_size update_with_block
update_with_block-eq-ok block_size block height c c' v u =
    elim (Result-cases (calculate_block_size block_size block)) [
      | inl (size, e) ↦ (size, ground (arith, v, e), ground (arith, u, e))
      | inr (e, f) ↦ absurd (ground (arith, v, f))
    ]

same_params :
    (height size : ℕ) (c : AdaptiveBlockSizeCalculator)
    → (calculate_adaptive_max_block_size height (add_block_size size c)).params ≡ c.params
unfolding calculate_adaptive_max_block_size add_block_size
same_params height size c = ground (arith)

Reach-IsKept :
    (block_size : Block → Option ℕ) (params : AdaptiveBlockSizeParams) (height : ℕ)
    (c : AdaptiveBlockSizeCalculator)
    → IsSensible params
    → Reach block_size params height c
    → IsKept height c × (c.params ≡ params)
unfolding new_calculator
Reach-IsKept block_size params height c sensible start = (
  record {
    sensible = sensible;
    within = sensible.min_le_initial;
    bounded = omega arith;
    recent =
        subst (λ n. All (λ s. s ≤ params.initial_max_block_size_bytes) (take n []))
          (sym (zero-mod params.median_calculation_period_blocks)) tt;
  },
  refl,
)
Reach-IsKept block_size params height c' sensible (next {height = h} {c = c} block r v u) =
    let before = Reach-IsKept block_size params h c sensible r in
    let step = update_with_block-eq-ok block_size block (suc h) c c' v u in
    (
      subst (IsKept (suc h)) step.2 (IsKept-next h step.0 c before.0 step.1),
      ap (λ d. d.params) (sym step.2) ∙ same_params (suc h) step.0 c ∙ before.1,
    )

-- With sensible parameters, after any number of blocks that each passed the size check before it was
-- added, the limit is between its lower bound and the initial limit, whatever the growth factor is.
pub current_adaptive_max_size-le :
    (block_size : Block → Option ℕ) (params : AdaptiveBlockSizeParams) (height : ℕ)
    (c : AdaptiveBlockSizeCalculator)
    → IsSensible params
    → Reach block_size params height c
    → (params.min_max_block_size_bytes ≤ c.current_adaptive_max_size)
      × (c.current_adaptive_max_size ≤ params.initial_max_block_size_bytes)
current_adaptive_max_size-le block_size params height c sensible r =
    let k = Reach-IsKept block_size params height c sensible r in
    subst
      (λ p.
        (p.min_max_block_size_bytes ≤ c.current_adaptive_max_size)
        × (c.current_adaptive_max_size ≤ p.initial_max_block_size_bytes))
      k.1 (k.0.within, k.0.bounded)
