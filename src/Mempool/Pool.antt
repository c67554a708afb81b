-- ===== src/Mempool/Pool.antt =====
-- `Mempool` and its plain operations (rusty-core/src/mempool.rs).
use rusty_coin.Common.{Bool, true, false, ◌||◌, List, [], ◌∷◌, Option, none, some, map}
use rusty_coin.Common.HashMap.{HashMap, get, insert, remove, contains_key}
use rusty_coin.Types.Tx.{Hash, OutPoint, hash_key}
use rusty_coin.Types.Transaction.{Transaction, get_inputs}
use rusty_coin.Script.Context.{Primitives}
use rusty_coin.Utxo.Set.{spends}

abbrev pub Mempool : Type 0
Mempool = HashMap Hash Transaction

abbrev pub empty : Mempool
empty = []

-- `tx.txid()`; the process ends where the transaction cannot be serialised.
abbrev pub identify : Primitives → Transaction → Option Hash
identify prims tx = elim (prims.serialize tx) [
  | none ↦ none
  | some bytes ↦ some (prims.blake3 bytes)
]

unfoldable pub contains_transaction : Hash → Mempool → Bool
contains_transaction txid pool = contains_key txid pool

-- `Ok(true)` with the new pool, or `Ok(false)`; the process ends where there is no identifier.
pub data Addition : Type 0 where
  inserted : (pool : Mempool) → Addition
  already_in_pool : Addition
  no_identifier : Addition

unfoldable pub add_transaction : Primitives → Transaction → Mempool → Addition
unfolding contains_transaction
add_transaction prims tx pool = elim (identify prims tx) [
  | none ↦ no_identifier
  | some txid ↦ elim (contains_transaction txid pool) [
    | true ↦ already_in_pool
    | false ↦ inserted (insert txid tx pool)
  ]
]

-- The pool that is left; the removed transaction is `get_transaction txid pool`.
unfoldable pub remove_transaction : Hash → Mempool → Mempool
remove_transaction txid pool = remove txid pool

unfoldable pub get_transaction : Hash → Mempool → Option Transaction
get_transaction txid pool = get txid pool

unfoldable pub get_transactions : Mempool → List Transaction
get_transactions pool = map (λ entry. entry.1) pool

-- One of the pool's transactions spends the outpoint.
unfoldable pub pool_spends : Mempool → OutPoint → Bool
pool_spends [] p = false
pool_spends ((txid, tx) ∷ pool) p = spends (get_inputs tx) p || pool_spends pool p
