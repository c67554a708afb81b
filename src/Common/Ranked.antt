-- ===== src/Common/Ranked.antt =====
-- Members of a sorted list, of its reverse, and of the two parts of that.
use mathlib.Core.List.{List, [], ◌∷◌, ◌++◌, reverse, reverse-append}
use mathlib.Core.Path.{◌≡◌, sym, subst}
use mathlib.Core.Bool.{Bool, true, false}
use mathlib.Core.Logic.{◌⊎◌, inl, inr}
use Prim.Native.Nat.{ℕ, zero, suc}
use native.Mathlib.Omega.{arith}
use rusty_coin.Common.Tests.{if◌then◌else◌, Bool-cases}
use rusty_coin.Common.Lists.{All, take, drop}
use rusty_coin.Common.Sorting.{insert_by, sort_by, insert_by-All}

module _ {A : Type 0} where
  abbrev pub In : A → List A → Type 0
  In x [] = ⊥
  In x (y ∷ ys) = (x ≡ y) ⊎ In x ys

  pub All-In : (P : A → Type 0) (x : A) (xs : List A) → All P xs → In x xs → P x
  All-In P x [] h i = absurd i
  All-In P x (y ∷ ys) h (inl e) = subst P (sym e) h.0
  All-In P x (y ∷ ys) h (inr i) = All-In P x ys h.1 i

  pub append-In : (x : A) (xs ys : List A) → In x xs ⊎ In x ys → In x (xs ++ ys)
  append-In x [] ys (inl h) = absurd h
  append-In x [] ys (inr h) = h
  append-In x (y ∷ xs) ys (inl (inl p)) = inl p
  append-In x (y ∷ xs) ys (inl (inr h)) = inr (append-In x xs ys (inl h))
  append-In x (y ∷ xs) ys (inr h) = inr (append-In x xs ys (inr h))

  All-append : (P : A → Type 0) (xs ys : List A) → All P xs → All P ys → All P (xs ++ ys)
  All-append P [] ys h k = k
  All-append P (x ∷ xs) ys h k = (h.0, All-append P xs ys h.1 k)

  pub take-All : (P : A → Type 0) (n : ℕ) (xs : List A) → All P xs → All P (take n xs)
  take-All P zero xs h = tt
  take-All P (suc n) [] h = tt
  take-All P (suc n) (x ∷ xs) h = (h.0, take-All P n xs h.1)

  pub take-drop-In : (x : A) (n : ℕ) (xs : List A) → In x xs → In x (take n xs) ⊎ In x (drop n xs)
  take-drop-In x zero xs i = inr i
  take-drop-In x (suc n) [] i = absurd i
  take-drop-In x (suc n) (y ∷ ys) (inl e) = inl (inl e)
  take-drop-In x (suc n) (y ∷ ys) (inr i) = elim (take-drop-In x n ys i) [
    | inl l ↦ inl (inr l)
    | inr r ↦ inr r
  ]

  drop-In : (x : A) (n : ℕ) (xs : List A) → In x (drop n xs) → In x xs
  drop-In x zero xs i = i
  drop-In x (suc n) [] i = absurd i
  drop-In x (suc n) (y ∷ ys) i = inr (drop-In x n ys i)

  pub reverse-cons : (x : A) (xs : List A) → reverse (x ∷ xs) ≡ reverse xs ++ x ∷ []
  reverse-cons x xs = reverse-append (x ∷ []) xs

  pub reverse-All : (P : A → Type 0) (xs : List A) → All P xs → All P (reverse xs)
  reverse-All P [] h = tt
  reverse-All P (x ∷ xs) h =
      subst (All P) (sym (reverse-cons x xs))
        (All-append P (reverse xs) (x ∷ []) (reverse-All P xs h.1) (h.0, tt))

  pub reverse-In : (x : A) (xs : List A) → In x xs → In x (reverse xs)
  reverse-In x [] i = absurd i
  reverse-In x (y ∷ ys) (inl e) =
      subst (In x) (sym (reverse-cons y ys)) (append-In x (reverse ys) (y ∷ []) (inr (inl e)))
  reverse-In x (y ∷ ys) (inr i) =
      subst (In x) (sym (reverse-cons y ys))
        (append-In x (reverse ys) (y ∷ []) (inl (reverse-In x ys i)))

  module _ (le : A → A → Bool) where
    insert_by-In : (x a : A) (xs : List A) → (x ≡ a) ⊎ In x xs → In x (insert_by le a xs)
    unfolding insert_by
    insert_by-In x a [] h = h
    insert_by-In x a (y ∷ ys) h =
        elim (le a y) as (λ b. In x (if b then a ∷ y ∷ ys else y ∷ insert_by le a ys)) [
          | true ↦ h
          | false ↦ elim h [
            | inl e ↦ inr (insert_by-In x a ys (inl e))
            | inr (inl e) ↦ inl e
            | inr (inr i) ↦ inr (insert_by-In x a ys (inr i))
          ]
        ]

    pub sort_by-In : (x : A) (xs : List A) → In x xs → In x (sort_by le xs)
    unfolding sort_by
    sort_by-In x [] i = absurd i
    sort_by-In x (y ∷ ys) (inl e) = insert_by-In x y (sort_by le ys) (inl e)
    sort_by-In x (y ∷ ys) (inr i) = insert_by-In x y (sort_by le ys) (inr (sort_by-In x ys i))

    -- No element comes before a smaller one, or after one.
    abbrev IsSorted : List A → Type 0
    IsSorted [] = Unit {0}
    IsSorted (x ∷ xs) = All (λ y. le x y ≡ true) xs × IsSorted xs

    abbrev IsRanked : List A → Type 0
    IsRanked [] = Unit {0}
    IsRanked (x ∷ xs) = All (λ y. le y x ≡ true) xs × IsRanked xs

    append-IsRanked :
        (xs : List A) (x : A) → IsRanked xs → All (λ y. le x y ≡ true) xs → IsRanked (xs ++ x ∷ [])
    append-IsRanked [] x h l = (tt, tt)
    append-IsRanked (y ∷ ys) x h l =
        (All-append (λ z. le z y ≡ true) ys (x ∷ []) h.0 (l.0, tt), append-IsRanked ys x h.1 l.1)

    reverse-IsRanked : (xs : List A) → IsSorted xs → IsRanked (reverse xs)
    reverse-IsRanked [] h = tt
    reverse-IsRanked (x ∷ xs) h = subst IsRanked (sym (reverse-cons x xs)) (
        append-IsRanked (reverse xs) x (reverse-IsRanked xs h.1)
          (reverse-All (λ y. le x y ≡ true) xs h.0))

    -- What is left of a ranking is at most what was taken.
    IsRanked-take :
        (x : A) (n : ℕ) (xs : List A)
        → IsRanked xs
        → In x (drop n xs)
        → All (λ s. le x s ≡ true) (take n xs)
    IsRanked-take x zero xs h i = tt
    IsRanked-take x (suc n) [] h i = absurd i
    IsRanked-take x (suc n) (y ∷ ys) h i =
        (All-In (λ z. le z y ≡ true) x ys h.0 (drop-In x n ys i), IsRanked-take x n ys h.1 i)

    module _ (total : (a b : A) → (le a b ≡ true) ⊎ (le b a ≡ true))
        (trans : (a b c : A) → le a b ≡ true → le b c ≡ true → le a c ≡ true) where
      All-trans :
          (x y : A) (ys : List A)
          → le x y ≡ true
          → All (λ z. le y z ≡ true) ys
          → All (λ z. le x z ≡ true) ys
      All-trans x y [] l h = tt
      All-trans x y (z ∷ zs) l h = (trans x y z l h.0, All-trans x y zs l h.1)

      insert_by-IsSorted : (x : A) (xs : List A) → IsSorted xs → IsSorted (insert_by le x xs)
      unfolding insert_by
      insert_by-IsSorted x [] h = (tt, tt)
      insert_by-IsSorted x (y ∷ ys) h = elim (Bool-cases (le x y)) [
        | inl l ↦ rw l ((l, All-trans x y ys l h.0), h)
        | inr g ↦
            let back : le y x ≡ true = ground (arith, total x y, g) in
            rw g (insert_by-All le (λ z. le y z ≡ true) x ys back h.0, insert_by-IsSorted x ys h.1)
      ]

      sort_by-IsSorted : (xs : List A) → IsSorted (sort_by le xs)
      unfolding sort_by
      sort_by-IsSorted [] = tt
      sort_by-IsSorted (x ∷ xs) = insert_by-IsSorted x (sort_by le xs) (sort_by-IsSorted xs)

      -- Of a list sorted and turned around, an element is among the first ones or at most each.
      pub take-reverse-sort_by :
          (x : A) (n : ℕ) (xs : List A)
          → In x xs
          → In x (take n (reverse (sort_by le xs)))
            ⊎ All (λ s. le x s ≡ true) (take n (reverse (sort_by le xs)))
      take-reverse-sort_by x n xs i =
          let ranked = reverse (sort_by le xs) in
          elim (take-drop-In x n ranked (reverse-In x (sort_by le xs) (sort_by-In x xs i))) [
            | inl taken ↦ inl taken
            | inr left ↦ inr (
                IsRanked-take x n ranked (reverse-IsRanked (sort_by le xs) (sort_by-IsSorted xs))
                  left)
          ]
