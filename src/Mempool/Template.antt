-- ===== src/Mempool/Template.antt =====
-- `get_transactions_for_block_template` (rusty-core/src/mempool.rs).
use rusty_coin.Common.{
  ℕ, ◌+◌, ◌*◌, ◌/◌, ◌%◌, Bool, true, false, List, [], ◌∷◌, length, ltb, leb, if◌then◌else◌,
}
use rusty_coin.Common.Words.{Bytes, u64_mod}
use rusty_coin.Types.Transaction.{Transaction, get_fee}
use rusty_coin.Types.Block.{Encoding, txid}
use rusty_coin.Mempool.Pool.{Mempool, get_transactions}

-- `bincode::serialize(tx).unwrap_or(vec![]).len()`, for transactions that can be serialised, as all
-- that were identified for the pool.
unfoldable pub size_of : Encoding → Transaction → ℕ
size_of enc tx = length (enc.serialize tx)

-- The fee for a thousand bytes, in wrapping arithmetic.
unfoldable pub fee_rate : Encoding → Transaction → ℕ
unfolding size_of
fee_rate enc tx = if ltb 0 (size_of enc tx) then get_fee tx * 1000 % u64_mod / size_of enc tx else 0

-- The order of byte arrays.
unfoldable pub bytes_before : Bytes → Bytes → Bool
bytes_before [] b = true
bytes_before (a ∷ rest_a) [] = false
bytes_before (a ∷ rest_a) (b ∷ rest_b) =
    let rest = bytes_before rest_a rest_b in
    if ltb a b then true else if ltb b a then false else rest

-- The comparison of the sort: the higher rate first, then the lower identifier.
unfoldable pub comes_before : Encoding → Transaction → Transaction → Bool
unfolding bytes_before
comes_before enc a b =
    if ltb (fee_rate enc b) (fee_rate enc a)
    then true
    else if ltb (fee_rate enc a) (fee_rate enc b)
    then false
    else bytes_before (txid enc a) (txid enc b)

-- `sort_by`, as an insertion sort.
unfoldable pub insert_sorted : Encoding → Transaction → List Transaction → List Transaction
insert_sorted enc tx [] = tx ∷ []
insert_sorted enc tx (other ∷ txs) =
    let later = insert_sorted enc tx txs in
    if comes_before enc tx other then tx ∷ other ∷ txs else other ∷ later

unfoldable pub sort_by_fee_rate : Encoding → List Transaction → List Transaction
sort_by_fee_rate enc [] = []
sort_by_fee_rate enc (tx ∷ txs) = insert_sorted enc tx (sort_by_fee_rate enc txs)

-- The loop that takes transactions until one does not fit.
unfoldable pub select : Encoding → ℕ → ℕ → List Transaction → List Transaction
select enc max_block_size current_size [] = []
select enc max_block_size current_size (tx ∷ txs) =
    let size = (current_size + size_of enc tx) % u64_mod in
    let rest = select enc max_block_size size txs in
    if leb size max_block_size then tx ∷ rest else []

unfoldable pub get_transactions_for_block_template : Encoding → ℕ → Mempool → List Transaction
unfolding select sort_by_fee_rate get_transactions
get_transactions_for_block_template enc max_block_size pool =
    select enc max_block_size 0 (sort_by_fee_rate enc (get_transactions pool))
