-- ===== src/Mempool/Proofs/Selection.antt =====
-- The transactions that a block template takes from the pool.
use rusty_coin.Common.{
  ℕ, ◌+◌, ◌%◌, ◌≤◌, ◌<◌, true, false, List, [], ◌∷◌, ◌++◌, ◌≡◌, refl, ap, arith, ◌⊎◌, inl, inr, leb,
  Bool-cases, leb→le,
}
use rusty_coin.Common.Words.{u64_mod}
use rusty_coin.Types.Transaction.{Transaction}
use rusty_coin.Types.Block.{Encoding}
use rusty_coin.Mempool.Pool.{Mempool, get_transactions}
use rusty_coin.Mempool.Template.{
  size_of, fee_rate, comes_before, insert_sorted, sort_by_fee_rate, select,
  get_transactions_for_block_template,
}

-- The size of all transactions together.
unfoldable pub total_size : Encoding → List Transaction → ℕ
total_size enc [] = 0
total_size enc (tx ∷ txs) = size_of enc tx + total_size enc txs

-- The rates go down along the list.
abbrev pub IsByRate : Encoding → List Transaction → Type 0
IsByRate enc [] = Unit {0}
IsByRate enc (a ∷ []) = Unit {0}
IsByRate enc (a ∷ b ∷ txs) = (fee_rate enc b ≤ fee_rate enc a) × IsByRate enc (b ∷ txs)

-- The first of the transactions left over does not fit beside those of this size.
abbrev pub IsFull : Encoding → ℕ → ℕ → List Transaction → Type 0
IsFull enc max_block_size size [] = Unit {0}
IsFull enc max_block_size size (tx ∷ txs) = max_block_size < size + size_of enc tx

module _ (enc : Encoding) where
  total_size-insert_sorted :
      (tx : Transaction) (txs : List Transaction)
      → total_size enc (insert_sorted enc tx txs) ≡ size_of enc tx + total_size enc txs
  unfolding total_size insert_sorted
  total_size-insert_sorted tx [] = refl
  total_size-insert_sorted tx (other ∷ txs) = ground (arith, total_size-insert_sorted tx txs)

  total_size-sort_by_fee_rate :
      (txs : List Transaction) → total_size enc (sort_by_fee_rate enc txs) ≡ total_size enc txs
  unfolding total_size sort_by_fee_rate
  total_size-sort_by_fee_rate [] = refl
  total_size-sort_by_fee_rate (tx ∷ txs) = omega (
    arith,
    total_size-insert_sorted tx (sort_by_fee_rate enc txs),
    total_size-sort_by_fee_rate txs,
  )

  comes_before_rate :
      (a b : Transaction)
      → ((comes_before enc a b ≡ true) × (fee_rate enc b ≤ fee_rate enc a))
        ⊎ ((comes_before enc a b ≡ false) × (fee_rate enc a ≤ fee_rate enc b))
  unfolding comes_before
  comes_before_rate a b = ground arith

  insert_sorted-IsByRate :
      (tx : Transaction) (txs : List Transaction)
      → IsByRate enc txs
      → IsByRate enc (insert_sorted enc tx txs)
  unfolding insert_sorted
  insert_sorted-IsByRate tx [] h = tt
  insert_sorted-IsByRate tx (a ∷ []) h = elim (comes_before_rate tx a) [
    | inl (p, q) ↦ rw p (q, tt)
    | inr (p, q) ↦ rw p (q, tt)
  ]
  insert_sorted-IsByRate tx (a ∷ b ∷ txs) h =
      let ih = insert_sorted-IsByRate tx (b ∷ txs) h.1 in
      elim (comes_before_rate tx a) [
        | inl (p, q) ↦ rw p (q, h)
        | inr (p, q) ↦ elim (comes_before_rate tx b) [
          | inl (p2, q2) ↦ rw (p, p2) (q, (q2, h.1))
          | inr (p2, q2) ↦ rw (p, p2) (h.0, rw p2 at ih)
        ]
      ]

  -- The list that is taken from is sorted.
  sort_by_fee_rate-IsByRate : (txs : List Transaction) → IsByRate enc (sort_by_fee_rate enc txs)
  unfolding sort_by_fee_rate
  sort_by_fee_rate-IsByRate [] = tt
  sort_by_fee_rate-IsByRate (tx ∷ txs) =
      insert_sorted-IsByRate tx (sort_by_fee_rate enc txs) (sort_by_fee_rate-IsByRate txs)

  IsFull-eq :
      (limit a b : ℕ) (rest : List Transaction)
      → a ≡ b
      → IsFull enc limit a rest
      → IsFull enc limit b rest
  IsFull-eq limit a b [] e h = tt
  IsFull-eq limit a b (tx ∷ rest) e h = omega arith

  select_lem :
      (limit size : ℕ) (txs : List Transaction)
      → size ≤ limit
      → size + total_size enc txs < u64_mod
      → (rest : List Transaction) × (txs ≡ select enc limit size txs ++ rest)
        × (size + total_size enc (select enc limit size txs) ≤ limit)
        × IsFull enc limit (size + total_size enc (select enc limit size txs)) rest
  unfolding select total_size
  select_lem limit size [] l b = ([], refl, omega arith, tt)
  select_lem limit size (tx ∷ txs) l b =
      let now : (size + size_of enc tx) % u64_mod ≡ size + size_of enc tx = omega arith in
      elim (Bool-cases (leb (size + size_of enc tx) limit)) [
        | inl p ↦
            let (rest, e, fits, full) =
              select_lem limit (size + size_of enc tx) txs (leb→le (size + size_of enc tx) limit p)
                (omega arith) in
            rw (now, p)
              (
                rest,
                ap (◌∷◌ tx) e,
                omega (arith, fits),
                IsFull-eq limit _ _ rest (omega arith) full,
              )
        | inr p ↦ rw (now, p) (tx ∷ txs, refl, omega arith, ground arith)
      ]

  -- The template's transactions are those that stand first when the pool is sorted, their size is at
  -- most the limit, and the next one would not fit, if the sizes of the pool's transactions together
  -- do not exceed 64 bits; and the sorted pool has higher fee rates first.
  pub get_transactions_for_block_template-select :
      (max_block_size : ℕ) (pool : Mempool)
      → total_size enc (get_transactions pool) < u64_mod
      → IsByRate enc (sort_by_fee_rate enc (get_transactions pool))
        × ((rest : List Transaction) × (sort_by_fee_rate enc (get_transactions pool)
              ≡ get_transactions_for_block_template enc max_block_size pool ++ rest)
            × (total_size enc (get_transactions_for_block_template enc max_block_size pool)
                ≤ max_block_size)
            × IsFull enc max_block_size
                (total_size enc (get_transactions_for_block_template enc max_block_size pool))
                rest)
  unfolding get_transactions_for_block_template
  get_transactions_for_block_template-select limit pool b =
      let sorted = sort_by_fee_rate enc (get_transactions pool) in
      let (rest, e, fits, full) =
        select_lem limit 0 sorted (omega arith)
          (omega (arith, total_size-sort_by_fee_rate (get_transactions pool))) in
      (
        sort_by_fee_rate-IsByRate (get_transactions pool),
        (
          rest,
          e,
          omega (arith, fits),
          IsFull-eq limit (0 + total_size enc (select enc limit 0 sorted))
              (total_size enc (select enc limit 0 sorted)) rest (omega arith) full,
        ),
      )
