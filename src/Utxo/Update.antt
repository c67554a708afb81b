-- ===== src/Utxo/Update.antt =====
-- A transaction or a block applied to the set (rusty-core/src/consensus/utxo_set.rs).
use rusty_coin.Common.{ℕ, suc, ◌%◌, Bool, List, [], ◌∷◌}
use rusty_coin.Common.Words.{u32_mod}
use rusty_coin.Types.Tx.{Hash, OutPoint, TxInput, TxOutput}
use rusty_coin.Types.Transaction.{Transaction, get_inputs, get_outputs, is_coinbase}
use rusty_coin.Types.Block.{Block, Encoding, txid}
use rusty_coin.Utxo.Set.{UtxoSet, add_utxo, remove_utxo}

-- `OutPoint { txid: tx.txid(), vout: i as u32 }`
abbrev pub outpoint_at : Hash → ℕ → OutPoint
outpoint_at id i = record { txid = id; vout = i % u32_mod }

-- The loop over a transaction's inputs.
unfoldable pub remove_inputs : List TxInput → UtxoSet → UtxoSet
remove_inputs [] s = s
remove_inputs (input ∷ inputs) s = remove_inputs inputs (remove_utxo input.previous_output s)

-- The loop over a transaction's outputs, from index `i` on.
unfoldable pub add_outputs : Hash → Bool → ℕ → ℕ → List TxOutput → UtxoSet → UtxoSet
add_outputs id coinbase height i [] s = s
add_outputs id coinbase height i (output ∷ outputs) s =
    add_outputs id coinbase height (suc i) outputs (
      add_utxo (outpoint_at id i)
        (record { output = output; is_coinbase = coinbase; creation_height = height }) s)

unfoldable pub add_all : Encoding → ℕ → Transaction → UtxoSet → UtxoSet
add_all enc height tx s = add_outputs (txid enc tx) (is_coinbase tx) height 0 (get_outputs tx) s

unfoldable pub update_from_transaction : Encoding → Transaction → ℕ → UtxoSet → UtxoSet
update_from_transaction enc tx height s = add_all enc height tx (remove_inputs (get_inputs tx) s)

-- The first loop of `update_from_block`.
unfoldable pub remove_block_inputs : List Transaction → UtxoSet → UtxoSet
remove_block_inputs [] s = s
remove_block_inputs (tx ∷ txs) s = remove_block_inputs txs (remove_inputs (get_inputs tx) s)

-- The second loop of `update_from_block`.
unfoldable pub add_block_outputs : Encoding → ℕ → List Transaction → UtxoSet → UtxoSet
add_block_outputs enc height [] s = s
add_block_outputs enc height (tx ∷ txs) s =
    add_block_outputs enc height txs (add_all enc height tx s)

unfoldable pub update_from_block : Encoding → Block → ℕ → UtxoSet → UtxoSet
update_from_block enc block height s =
    add_block_outputs enc height block.transactions (remove_block_inputs block.transactions s)

unfoldable pub apply_block : Encoding → Block → ℕ → UtxoSet → UtxoSet
apply_block enc block height s = update_from_block enc block height s
