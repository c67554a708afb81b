-- ===== src/Merkle/Proofs.antt =====
-- What a Merkle root commits to.
use rusty_coin.Common.{
  ℕ, zero, suc, ◌+◌, ◌*◌, ◌/◌, ◌≤◌, ◌<◌, List, [], ◌∷◌, ◌++◌, some, ◌≡◌, ◌≢◌, ◌⊎◌, inl, inr, refl,
  ap, sym, ◌∙◌, length, arith,
}
use rusty_coin.Common.Ranked.{In, append-In}
use rusty_coin.Types.Tx.{Hash, Hash-discrete}
use rusty_coin.Merkle.Tree.{next_level, reduce, calculate_merkle_root}

head_eq : {x y : Hash} {xs ys : List Hash} → ◌≡◌ {A = List Hash} (x ∷ xs) (y ∷ ys) → x ≡ y
head_eq e = cc e

tail_eq : {x y : Hash} {xs ys : List Hash} → ◌≡◌ {A = List Hash} (x ∷ xs) (y ∷ ys) → xs ≡ ys
tail_eq e = cc e

module _ (pair : Hash → Hash → Hash) where
  length-next_level : (level : List Hash) → length (next_level pair level) ≡ (length level + 1) / 2
  unfolding next_level
  length-next_level [] = omega arith
  length-next_level (left ∷ []) = omega arith
  length-next_level (left ∷ right ∷ level) = omega (arith, length-next_level level)

  -- Fuel for as many rounds as there are hashes is enough: the loop ends with a root.
  reduce-ne-none :
      (fuel : ℕ) (level : List Hash)
      → 0 < length level
      → length level ≤ fuel + 1
      → (root : Hash) × (reduce pair fuel level ≡ some root)
  unfolding reduce
  reduce-ne-none fuel [] h l = absurd (omega arith)
  reduce-ne-none fuel (root ∷ []) h l = (root, refl)
  reduce-ne-none zero (left ∷ right ∷ level) h l = absurd (omega arith)
  reduce-ne-none (suc fuel) (left ∷ right ∷ level) h l =
      reduce-ne-none fuel (pair left right ∷ next_level pair level) (omega arith)
        (omega (arith, length-next_level level))

  -- More fuel changes nothing.
  reduce_fuel :
      (fuel more : ℕ) (level : List Hash) (root : Hash)
      → fuel ≤ more
      → reduce pair fuel level ≡ some root
      → reduce pair more level ≡ some root
  unfolding reduce
  reduce_fuel fuel more [] root l h = h
  reduce_fuel fuel more (r ∷ []) root l h = h
  reduce_fuel zero more (left ∷ right ∷ level) root l h = absurd (cc h)
  reduce_fuel (suc fuel) zero (left ∷ right ∷ level) root l h = absurd (omega arith)
  reduce_fuel (suc fuel) (suc more) (left ∷ right ∷ level) root l h =
      reduce_fuel fuel more (pair left right ∷ next_level pair level) root (omega arith) h

  -- The computation ends: every list of hashes that is not empty has a root, which is the hash
  -- itself where there is one hash, and the root of the pairs' hashes where there are more.
  pub calculate_merkle_root-total :
      (left right : Hash) (level : List Hash)
      → (calculate_merkle_root pair (left ∷ []) ≡ some left)
        × ((root : Hash) × (calculate_merkle_root pair (left ∷ right ∷ level) ≡ some root)
            × (calculate_merkle_root pair (next_level pair (left ∷ right ∷ level)) ≡ some root))
  unfolding calculate_merkle_root reduce next_level
  calculate_merkle_root-total left right level =
      let next = pair left right ∷ next_level pair level in
      let (root, e) = reduce-ne-none (length next) next (omega arith) (omega arith) in
      (
        refl,
        (
          root,
          reduce_fuel (length next) (suc (length level)) next root
              (omega (arith, length-next_level level)) e,
          e,
        ),
      )

  calculate_merkle_root_step :
      (left right : Hash) (level : List Hash)
      → calculate_merkle_root pair (left ∷ right ∷ level)
        ≡ calculate_merkle_root pair (next_level pair (left ∷ right ∷ level))
  calculate_merkle_root_step left right level =
      let (root, a, b) = (calculate_merkle_root-total left right level).1 in a ∙ sym b

  next_level-duplicate :
      (level : List Hash) (last : Hash) (k : ℕ)
      → length level ≡ 2 * k
      → next_level pair (level ++ last ∷ last ∷ []) ≡ next_level pair (level ++ last ∷ [])
  unfolding next_level
  next_level-duplicate [] last k e = refl
  next_level-duplicate (a ∷ []) last k e = absurd (omega arith)
  next_level-duplicate (a ∷ b ∷ level) last zero e = absurd (omega arith)
  next_level-duplicate (a ∷ b ∷ level) last (suc k) e =
      ap (◌∷◌ (pair a b)) (next_level-duplicate level last k (omega arith))

  -- A list of odd length, of three hashes at least, and the list with its last hash once more have
  -- the same root: the root does not tell two blocks apart that differ in a repeated last hash.
  pub calculate_merkle_root-duplicate :
      (a b last : Hash) (level : List Hash) (k : ℕ)
      → length level ≡ 2 * k
      → calculate_merkle_root pair (a ∷ b ∷ (level ++ last ∷ []))
        ≡ calculate_merkle_root pair (a ∷ b ∷ (level ++ last ∷ last ∷ []))
  unfolding next_level
  calculate_merkle_root-duplicate a b last level k e =
      calculate_merkle_root_step a b (level ++ last ∷ [])
      ∙ ap (λ next. calculate_merkle_root pair (pair a b ∷ next))
          (sym (next_level-duplicate level last k e))
      ∙ sym (calculate_merkle_root_step a b (level ++ last ∷ last ∷ []))

  -- The pairs that a round hashes, and those that the rounds hash until one hash is left.
  unfoldable pub paired : List Hash → List (Hash × Hash)
  paired [] = []
  paired (left ∷ []) = (left, left) ∷ []
  paired (left ∷ right ∷ level) = (left, right) ∷ paired level

  unfoldable pub hashed : ℕ → List Hash → List (Hash × Hash)
  unfolding paired next_level
  hashed fuel [] = []
  hashed fuel (root ∷ []) = []
  hashed zero (left ∷ right ∷ level) = []
  hashed (suc fuel) (left ∷ right ∷ level) =
      paired (left ∷ right ∷ level) ++ hashed fuel (next_level pair (left ∷ right ∷ level))

  -- Two different pairs, one of each list, with the same hash.
  abbrev pub Collision : List (Hash × Hash) → List (Hash × Hash) → Type 0
  Collision ps qs =
      (p : Hash × Hash) × (q : Hash × Hash) × In p ps
      × In q qs
      × (p ≢ q)
      × (pair p.0 p.1 ≡ pair q.0 q.1)

  Collision-widen :
      (ps qs ps' qs' : List (Hash × Hash))
      → ((p : Hash × Hash) → In p ps → In p ps')
      → ((q : Hash × Hash) → In q qs → In q qs')
      → Collision ps qs
      → Collision ps' qs'
  Collision-widen ps qs ps' qs' f g (p, q, i, j, n, e) = (p, q, f p i, g q j, n, e)

  -- Two pairs with the same hash at the front are the same, or a collision.
  front-Collision :
      (a b c d : Hash) (ps qs : List (Hash × Hash))
      → pair a b ≡ pair c d
      → ((a ≡ c) × (b ≡ d)) ⊎ Collision ((a, b) ∷ ps) ((c, d) ∷ qs)
  front-Collision a b c d ps qs e = elim (Hash-discrete a c) [
    | no n ↦ inr ((a, b), (c, d), inl refl, inl refl, λ h. n (ap (λ p. p.0) h), e)
    | yes p ↦ elim (Hash-discrete b d) [
      | no n ↦ inr ((a, b), (c, d), inl refl, inl refl, λ h. n (ap (λ p. p.1) h), e)
      | yes q ↦ inl (p, q)
    ]
  ]

  next_level-Collision :
      (xs ys : List Hash)
      → length xs ≡ length ys
      → next_level pair xs ≡ next_level pair ys
      → (xs ≡ ys) ⊎ Collision (paired xs) (paired ys)
  unfolding next_level paired
  next_level-Collision [] [] l e = inl refl
  next_level-Collision [] (y ∷ ys) l e = absurd (omega arith)
  next_level-Collision (x ∷ xs) [] l e = absurd (omega arith)
  next_level-Collision (x ∷ []) (y ∷ []) l e = elim (front-Collision x x y y [] [] (head_eq e)) [
    | inl p ↦ inl (ap (λ z. z ∷ []) p.0)
    | inr c ↦ inr c
  ]
  next_level-Collision (x ∷ []) (y ∷ y' ∷ ys) l e = absurd (omega arith)
  next_level-Collision (x ∷ x' ∷ xs) (y ∷ []) l e = absurd (omega arith)
  next_level-Collision (x ∷ x' ∷ xs) (y ∷ y' ∷ ys) l e =
      elim (front-Collision x x' y y' (paired xs) (paired ys) (head_eq e)) [
        | inr c ↦ inr c
        | inl (p, q) ↦ elim (next_level-Collision xs ys (omega arith) (tail_eq e)) [
          | inl r ↦ inl (rw (p, q, r) refl)
          | inr c ↦ inr (
              Collision-widen (paired xs) (paired ys) ((x, x') ∷ paired xs) ((y, y') ∷ paired ys)
                (λ a i. inr i) (λ a i. inr i) c)
        ]
      ]

  reduce-Collision :
      (f g : ℕ) (xs ys : List Hash) (root : Hash)
      → length xs ≡ length ys
      → reduce pair f xs ≡ some root
      → reduce pair g ys ≡ some root
      → (xs ≡ ys) ⊎ Collision (hashed f xs) (hashed g ys)
  unfolding reduce next_level hashed
  reduce-Collision f g [] ys root l p q = absurd (cc p)
  reduce-Collision f g (x ∷ xs) [] root l p q = absurd (omega arith)
  reduce-Collision f g (x ∷ []) (y ∷ []) root l p q = inl cc
  reduce-Collision f g (x ∷ []) (y ∷ y' ∷ ys) root l p q = absurd (omega arith)
  reduce-Collision f g (x ∷ x' ∷ xs) (y ∷ []) root l p q = absurd (omega arith)
  reduce-Collision zero g (x ∷ x' ∷ xs) (y ∷ y' ∷ ys) root l p q = absurd (cc p)
  reduce-Collision (suc f) zero (x ∷ x' ∷ xs) (y ∷ y' ∷ ys) root l p q = absurd (cc q)
  reduce-Collision (suc f) (suc g) (x ∷ x' ∷ xs) (y ∷ y' ∷ ys) root l p q =
      let xs' = next_level pair (x ∷ x' ∷ xs) in
      let ys' = next_level pair (y ∷ y' ∷ ys) in
      let ps = paired (x ∷ x' ∷ xs) in
      let qs = paired (y ∷ y' ∷ ys) in
      elim (reduce-Collision f g xs' ys' root
        (omega (arith, length-next_level xs, length-next_level ys)) p q) [
          | inr c ↦ inr (
              Collision-widen (hashed f xs') (hashed g ys') (ps ++ hashed f xs')
                (qs ++ hashed g ys') (λ a i. append-In a ps (hashed f xs') (inr i))
                (λ a i. append-In a qs (hashed g ys') (inr i)) c)
          | inl e ↦ elim (next_level-Collision (x ∷ x' ∷ xs) (y ∷ y' ∷ ys) l e) [
            | inl r ↦ inl r
            | inr c ↦ inr (
                Collision-widen ps qs (ps ++ hashed f xs') (qs ++ hashed g ys')
                  (λ a i. append-In a ps (hashed f xs') (inl i))
                  (λ a i. append-In a qs (hashed g ys') (inl i)) c)
          ]
        ]

  -- Two lists of the same length with the same root are the same list, or the two computations hash
  -- two different pairs to the same value: a root commits to every hash and to their order unless
  -- a collision of the hash of pairs stands in the two trees.
  pub calculate_merkle_root-Collision :
      (xs ys : List Hash) (root : Hash)
      → length xs ≡ length ys
      → calculate_merkle_root pair xs ≡ some root
      → calculate_merkle_root pair ys ≡ some root
      → (xs ≡ ys) ⊎ Collision (hashed (length xs) xs) (hashed (length ys) ys)
  unfolding calculate_merkle_root
  calculate_merkle_root-Collision xs ys root l p q =
      reduce-Collision (length xs) (length ys) xs ys root l p q
