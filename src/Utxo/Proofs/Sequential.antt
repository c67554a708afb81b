-- ===== src/Utxo/Proofs/Sequential.antt =====
-- A block applied as a whole against its transactions applied one after the other.
use rusty_coin.Common.{
  ℕ, false, List, [], ◌∷◌, none, ◌≡◌, refl, arith, if◌then◌else◌, ◌⊎◌, inl, inr,
}
use rusty_coin.Types.Tx.{OutPoint}
use rusty_coin.Types.Transaction.{Transaction}
use rusty_coin.Types.Block.{Block, Encoding}
use rusty_coin.Utxo.Set.{UtxoSet, get_utxo}
use rusty_coin.Utxo.Update.{update_from_transaction, update_from_block}
use rusty_coin.Utxo.Proofs.Lookup.{
  or_else, spends_in, created_in, get_utxo-update_from_transaction, get_utxo-update_from_block,
}

-- The transactions in the block's order, each on the set that the ones before it leave.
unfoldable pub update_each : Encoding → ℕ → List Transaction → UtxoSet → UtxoSet
update_each enc height [] s = s
update_each enc height (tx ∷ txs) s =
    update_each enc height txs (update_from_transaction enc tx height s)

module _ (enc : Encoding) (height : ℕ) (p : OutPoint) where
  get_utxo-update_each_of_not_created :
      (txs : List Transaction) (s : UtxoSet)
      → created_in enc height txs p ≡ none
      → get_utxo p (update_each enc height txs s) ≡ (if spends_in txs p then none else get_utxo p s)
  unfolding update_each created_in spends_in
  get_utxo-update_each_of_not_created [] s n = refl
  get_utxo-update_each_of_not_created (tx ∷ txs) s n = ground (
    arith,
    get_utxo-update_each_of_not_created txs (update_from_transaction enc tx height s),
    get_utxo-update_from_transaction enc height tx p s,
  )

  get_utxo-update_each_of_not_spent :
      (txs : List Transaction) (s : UtxoSet)
      → spends_in txs p ≡ false
      → get_utxo p (update_each enc height txs s)
        ≡ or_else (created_in enc height txs p) (get_utxo p s)
  unfolding update_each created_in spends_in
  get_utxo-update_each_of_not_spent [] s n = refl
  get_utxo-update_each_of_not_spent (tx ∷ txs) s n = ground (
    arith,
    get_utxo-update_each_of_not_spent txs (update_from_transaction enc tx height s),
    get_utxo-update_from_transaction enc height tx p s,
  )

  -- A block applied as a whole and its transactions applied one after the other leave the same
  -- entry at each outpoint that the block does not both create and spend.
  pub update_from_block-update_each :
      (block : Block) (s : UtxoSet)
      → (created_in enc height block.transactions p ≡ none)
        ⊎ (spends_in block.transactions p ≡ false)
      → get_utxo p (update_from_block enc block height s)
        ≡ get_utxo p (update_each enc height block.transactions s)
  update_from_block-update_each block s (inl n) =
      rw
        (
          get_utxo-update_from_block enc height block p s,
          get_utxo-update_each_of_not_created block.transactions s n,
          n,
        )
        refl
  update_from_block-update_each block s (inr n) =
      rw
        (
          get_utxo-update_from_block enc height block p s,
          get_utxo-update_each_of_not_spent block.transactions s n,
          n,
        )
        refl
