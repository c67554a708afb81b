-- ===== src/Common/HashMap.antt =====
-- Rust's `HashMap`: an association list with one entry for a key. The order of the entries stands
-- for the order of iteration, which the program cannot rely on.
use Prim.Native.Nat.{ℕ, ◌≤◌}
use mathlib.Core.Path.{◌≡◌, refl, sym, subst}
use mathlib.Core.Logic.{◌≢◌}
use mathlib.Core.Logic.{ite, if_neg}
use mathlib.Core.Bool.{Bool, true, false}
use mathlib.Core.Option
use mathlib.Core.Option.{Option, none, some}
use mathlib.Core.List.{List, [], ◌∷◌}
use native.Mathlib.Omega.{arith}
use native.Mathlib.Decide.{ℕ_discrete}
use rusty_coin.Common.Lists.{length, All}

-- The bounds `Eq + Hash` of a key type.
pub record Key {ℓ} (K : Type ℓ) : Type ℓ where
  pub eq : Discrete K

abbrev pub HashMap {ℓ} : Type ℓ → Type ℓ → Type ℓ
HashMap K V = List (K × V)

module _ {ℓ} {K V : Type ℓ} ⦃key : Key K⦄ where
  unfoldable pub get : K → HashMap K V → Option V
  get k [] = none
  get k ((j, v) ∷ m) = ite (key.eq j k) (some v) (get k m)

  unfoldable pub remove : K → HashMap K V → HashMap K V
  remove k [] = []
  remove k ((j, v) ∷ m) = let rest = remove k m in ite (key.eq j k) rest ((j, v) ∷ rest)

  pub get-remove :
      (k j : K) (m : HashMap K V) → get j (remove k m) ≡ ite (key.eq k j) none (get j m)
  unfolding get remove
  get-remove k j [] = ground arith
  get-remove k j ((i, v) ∷ m) = ground (arith, get-remove k j m)

  pub length-remove-le : (k : K) (m : HashMap K V) → length (remove k m) ≤ length m
  unfolding remove
  length-remove-le k [] = omega arith
  length-remove-le k ((j, v) ∷ m) = ground (arith, length-remove-le k m)

  -- A predicate on the entries survives a removal.
  pub All-remove {ν} : (P : K × V → Type ν) (k : K) (m : HashMap K V) → All P m → All P (remove k m)
  unfolding remove
  All-remove P k [] h = h
  All-remove P k ((j, v) ∷ m) h =
      elim (key.eq j k) as (λ d. All P (ite d (remove k m) ((j, v) ∷ remove k m))) [
        | yes p ↦ All-remove P k m h.1
        | no p ↦ (h.0, All-remove P k m h.1)
      ]

  -- No entry has the key.
  abbrev pub Absent : K → HashMap K V → Type ℓ
  Absent k = All (λ e. e.0 ≢ k)

  -- No key stands twice.
  abbrev pub AreUnique : HashMap K V → Type ℓ
  AreUnique [] = Unit {ℓ}
  AreUnique ((k, v) ∷ m) = Absent k m × AreUnique m

  pub remove-Absent : (k : K) (m : HashMap K V) → Absent k (remove k m)
  unfolding remove
  remove-Absent k [] = tt
  remove-Absent k ((j, v) ∷ m) =
      elim (key.eq j k) as (λ d. Absent k (ite d (remove k m) ((j, v) ∷ remove k m))) [
        | yes p ↦ remove-Absent k m
        | no p ↦ (p, remove-Absent k m)
      ]

  pub remove-AreUnique : (k : K) (m : HashMap K V) → AreUnique m → AreUnique (remove k m)
  unfolding remove
  remove-AreUnique k [] h = tt
  remove-AreUnique k ((j, v) ∷ m) h =
      elim (key.eq j k) as (λ d. AreUnique (ite d (remove k m) ((j, v) ∷ remove k m))) [
        | yes p ↦ remove-AreUnique k m h.1
        | no p ↦ (All-remove (λ e. e.0 ≢ j) k m h.0, remove-AreUnique k m h.1)
      ]

  pub get_of_Absent : (k : K) (m : HashMap K V) → Absent k m → get k m ≡ none
  unfolding get
  get_of_Absent k [] h = refl
  get_of_Absent k ((j, v) ∷ m) h = ground (arith, get_of_Absent k m h.1)

  pub remove_of_Absent : (k : K) (m : HashMap K V) → Absent k m → remove k m ≡ m
  unfolding remove
  remove_of_Absent k [] h = refl
  remove_of_Absent k ((j, v) ∷ m) h = ground (arith, remove_of_Absent k m h.1)

  pub get_self : (k : K) (v : V) (m : HashMap K V) → get k ((k, v) ∷ m) ≡ some v
  unfolding get
  get_self k v m = ground arith

  -- `m.insert(k, v)`: an entry with the key is replaced.
  unfoldable pub insert : K → V → HashMap K V → HashMap K V
  insert k v m = (k, v) ∷ remove k m

  abbrev pub contains_key : K → HashMap K V → Bool
  contains_key k m = elim (get k m) [ some v ↦ true | none ↦ false ]

  pub get-insert :
      (k j : K) (v : V) (m : HashMap K V)
      → get j (insert k v m) ≡ ite (key.eq k j) (some v) (get j m)
  unfolding get insert
  get-insert k j v m = ground (arith, get-remove k j m)

  pub insert-AreUnique : (k : K) (v : V) (m : HashMap K V) → AreUnique m → AreUnique (insert k v m)
  unfolding insert
  insert-AreUnique k v m h = (remove-Absent k m, remove-AreUnique k m h)

  -- A predicate on the entries holds of what a lookup finds.
  pub All-get {ν} :
      (P : K × V → Type ν) (k : K) (m : HashMap K V) {v : V} → All P m → get k m ≡ some v → P (k, v)
  unfolding get
  All-get P k [] h e = absurd (cc e)
  All-get P k ((j, w) ∷ m) {v = v} h e = elim (key.eq j k) [
    | yes p ↦ subst (λ x. P (x, v)) p (subst (λ x. P (j, x)) (ground arith) h.0)
    | no p ↦ All-get P k m h.1 (rw (if_neg _ p) at e)
  ]

  -- `if let Some(v) = m.get_mut(k)`, with the value changed in its place.
  unfoldable pub modify : K → (V → V) → HashMap K V → HashMap K V
  modify k f [] = []
  modify k f ((j, v) ∷ m) =
      let rest = modify k f m in ite (key.eq j k) ((j, f v) ∷ m) ((j, v) ∷ rest)

  pub get-modify :
      (k j : K) (f : V → V) (m : HashMap K V)
      → get j (modify k f m) ≡ ite (key.eq k j) (Option.map f (get j m)) (get j m)
  unfolding get modify
  get-modify k j f [] = ground arith
  get-modify k j f ((i, v) ∷ m) = ground (arith, get-modify k j f m)

  modify-Absent : (i k : K) (f : V → V) (m : HashMap K V) → Absent i m → Absent i (modify k f m)
  unfolding modify
  modify-Absent i k f [] h = tt
  modify-Absent i k f ((j, v) ∷ m) h =
      elim (key.eq j k) as (λ d. Absent i (ite d ((j, f v) ∷ m) ((j, v) ∷ modify k f m))) [
        | yes p ↦ h
        | no p ↦ (h.0, modify-Absent i k f m h.1)
      ]

  -- A predicate that the change of the entry keeps.
  pub All-modify {ν} :
      (P : K × V → Type ν) (k : K) (f : V → V) (m : HashMap K V)
      → All P m
      → ((v : V) → get k m ≡ some v → P (k, v) → P (k, f v))
      → All P (modify k f m)
  unfolding get modify
  All-modify P k f [] h keep = tt
  All-modify P k f ((j, v) ∷ m) h keep =
      elim (key.eq j k)
          as (λ d.
            ((w : V) → ite d (some v) (get k m) ≡ some w → P (k, w) → P (k, f w))
            → All P (ite d ((j, f v) ∷ m) ((j, v) ∷ modify k f m))) [
              | yes p ↦ λ keep.
                  (subst (λ x. P (x, f v)) (sym p) (keep v refl (subst (λ x. P (x, v)) p h.0)), h.1)
              | no p ↦ λ keep. (h.0, All-modify P k f m h.1 keep)
            ]
        keep

  pub modify-AreUnique :
      (k : K) (f : V → V) (m : HashMap K V) → AreUnique m → AreUnique (modify k f m)
  unfolding modify
  modify-AreUnique k f [] u = tt
  modify-AreUnique k f ((j, v) ∷ m) u =
      elim (key.eq j k) as (λ d. AreUnique (ite d ((j, f v) ∷ m) ((j, v) ∷ modify k f m))) [
        | yes p ↦ u
        | no p ↦ (modify-Absent j k f m u.0, modify-AreUnique k f m u.1)
      ]

  -- A predicate that survives an insertion.
  pub All-insert {ν} :
      (P : K × V → Type ν) (k : K) (v : V) (m : HashMap K V)
      → P (k, v)
      → All P m
      → All P (insert k v m)
  unfolding insert
  All-insert P k v m p h = (p, All-remove P k m h)

-- `u64` keys.
instance unfoldable pub nat_key : Key ℕ
nat_key = record { eq = ℕ_discrete }
