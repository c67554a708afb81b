-- ===== src/Common/Sorting.antt =====
-- `sort_by`, as an insertion sort, and the order of byte strings.
use mathlib.Core.List.{List, [], ◌∷◌}
use mathlib.Core.Path.{◌≡◌, refl}
use mathlib.Core.Bool.{Bool, true, false, ◌&&◌, ◌||◌}
use mathlib.Core.Logic.{◌⊎◌, inl, inr}
use Prim.Native.Nat.{ℕ, suc}
use native.Mathlib.Omega.{arith}
use rusty_coin.Common.Tests.{if◌then◌else◌, ltb, ◌==◌}
use rusty_coin.Common.Lists.{length, All}

module _ {ℓ} {A : Type ℓ} (le : A → A → Bool) where
  unfoldable pub insert_by : A → List A → List A
  insert_by x [] = x ∷ []
  insert_by x (y ∷ ys) = let rest = insert_by x ys in if le x y then x ∷ y ∷ ys else y ∷ rest

  unfoldable pub sort_by : List A → List A
  unfolding insert_by
  sort_by [] = []
  sort_by (x ∷ xs) = insert_by x (sort_by xs)

  pub length-insert_by : (x : A) (xs : List A) → length (insert_by x xs) ≡ suc (length xs)
  unfolding insert_by
  length-insert_by x [] = refl
  length-insert_by x (y ∷ ys) = ground (arith, length-insert_by x ys)

  pub length-sort_by : (xs : List A) → length (sort_by xs) ≡ length xs
  unfolding sort_by
  length-sort_by [] = refl
  length-sort_by (x ∷ xs) = omega (arith, length-insert_by x (sort_by xs), length-sort_by xs)

  pub insert_by-All {κ} :
      (P : A → Type κ) (x : A) (xs : List A) → P x → All P xs → All P (insert_by x xs)
  unfolding insert_by
  insert_by-All P x [] p h = (p, tt)
  insert_by-All P x (y ∷ ys) p h =
      elim (le x y) as (λ b. All P (if b then x ∷ y ∷ ys else y ∷ insert_by x ys)) [
        | true ↦ (p, h)
        | false ↦ (h.0, insert_by-All P x ys p h.1)
      ]

  pub sort_by-All {κ} : (P : A → Type κ) (xs : List A) → All P xs → All P (sort_by xs)
  unfolding sort_by
  sort_by-All P [] h = tt
  sort_by-All P (x ∷ xs) h = insert_by-All P x (sort_by xs) h.0 (sort_by-All P xs h.1)

  module _ (total : (a b : A) → (le a b ≡ true) ⊎ (le b a ≡ true))
      (antisym : (a b : A) → le a b ≡ true → le b a ≡ true → a ≡ b)
      (trans : (a b c : A) → le a b ≡ true → le b c ≡ true → le a c ≡ true) where
    -- The order in which two elements are inserted does not matter.
    pub insert_by_comm :
        (a b : A) (xs : List A) → insert_by a (insert_by b xs) ≡ insert_by b (insert_by a xs)
    unfolding insert_by
    insert_by_comm a b [] = ground (arith, total a b, antisym a b)
    insert_by_comm a b (y ∷ ys) =
        ground (arith, total a b, antisym a b, trans a b y, trans b a y, insert_by_comm a b ys)

unfoldable pub bytes_le : List ℕ → List ℕ → Bool
bytes_le [] ys = true
bytes_le (x ∷ xs) [] = false
bytes_le (x ∷ xs) (y ∷ ys) = let rest = bytes_le xs ys in ltb x y || (x == y && rest)

pub bytes_le_total : (xs ys : List ℕ) → (bytes_le xs ys ≡ true) ⊎ (bytes_le ys xs ≡ true)
unfolding bytes_le
bytes_le_total [] ys = inl refl
bytes_le_total (x ∷ xs) [] = inr refl
bytes_le_total (x ∷ xs) (y ∷ ys) = ground (arith, bytes_le_total xs ys)

pub bytes_le_antisym : (xs ys : List ℕ) → bytes_le xs ys ≡ true → bytes_le ys xs ≡ true → xs ≡ ys
unfolding bytes_le
bytes_le_antisym [] [] p q = refl
bytes_le_antisym [] (y ∷ ys) p q = absurd (cc q)
bytes_le_antisym (x ∷ xs) [] p q = absurd (cc p)
bytes_le_antisym (x ∷ xs) (y ∷ ys) p q = ground (arith, bytes_le_antisym xs ys)

pub bytes_le_trans :
    (xs ys zs : List ℕ) → bytes_le xs ys ≡ true → bytes_le ys zs ≡ true → bytes_le xs zs ≡ true
unfolding bytes_le
bytes_le_trans [] ys zs p q = refl
bytes_le_trans (x ∷ xs) [] zs p q = absurd (cc p)
bytes_le_trans (x ∷ xs) (y ∷ ys) [] p q = absurd (cc q)
bytes_le_trans (x ∷ xs) (y ∷ ys) (z ∷ zs) p q = ground (arith, bytes_le_trans xs ys zs)
