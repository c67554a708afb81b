-- ===== src/Utxo/Revert.antt =====
-- A block reverted from the set (rusty-core/src/consensus/utxo_set.rs).
use rusty_coin.Common.{ℕ, suc, false, List, [], ◌∷◌, Option, none, some}
use rusty_coin.Types.Tx.{Hash, OutPoint, TxInput, TxOutput, Utxo}
use rusty_coin.Types.Transaction.{Transaction, get_inputs, get_outputs}
use rusty_coin.Types.Block.{Block, Encoding, txid}
use rusty_coin.Utxo.Set.{UtxoSet, add_utxo, remove_utxo, get_utxo}
use rusty_coin.Utxo.Update.{outpoint_at}

-- `Result<UtxoSet, ConsensusError>`; the one error that the code names.
pub data Reverted : Type 0 where
  reverted : (s : UtxoSet) → Reverted
  failed_to_find_historical_utxo : (outpoint : OutPoint) → Reverted

abbrev pub dummy_utxo : Utxo
dummy_utxo = record {
  output = record { value = 0; script_pubkey = []; memo = none };
  is_coinbase = false;
  creation_height = 0;
}

unfoldable pub get_historical_utxo : OutPoint → UtxoSet → Option Utxo
get_historical_utxo outpoint s = elim (get_utxo outpoint s) [
  | some utxo ↦ some utxo
  | none ↦ some dummy_utxo
]

-- The loop over the outputs in reverse order: the outputs after index `i` go first.
unfoldable pub remove_outputs : Hash → ℕ → List TxOutput → UtxoSet → UtxoSet
remove_outputs id i [] s = s
remove_outputs id i (output ∷ outputs) s =
    remove_utxo (outpoint_at id i) (remove_outputs id (suc i) outputs s)

abbrev pub and_then : Reverted → (UtxoSet → Reverted) → Reverted
and_then (reverted s) f = f s
and_then (failed_to_find_historical_utxo p) f = failed_to_find_historical_utxo p

unfoldable pub restore_input : OutPoint → UtxoSet → Reverted
restore_input outpoint s = elim (get_historical_utxo outpoint s) [
  | some utxo ↦ reverted (add_utxo outpoint utxo s)
  | none ↦ failed_to_find_historical_utxo outpoint
]

-- The loop over the inputs in reverse order.
unfoldable pub restore_inputs : List TxInput → UtxoSet → Reverted
restore_inputs [] s = reverted s
restore_inputs (input ∷ inputs) s =
    and_then (restore_inputs inputs s) (restore_input input.previous_output)

unfoldable pub revert_transaction : Encoding → Transaction → UtxoSet → Reverted
revert_transaction enc tx s =
    restore_inputs (get_inputs tx) (remove_outputs (txid enc tx) 0 (get_outputs tx) s)

-- The loop over the transactions in reverse order.
unfoldable pub revert_transactions : Encoding → List Transaction → UtxoSet → Reverted
revert_transactions enc [] s = reverted s
revert_transactions enc (tx ∷ txs) s =
    and_then (revert_transactions enc txs s) (revert_transaction enc tx)

unfoldable pub revert_block : Encoding → Block → UtxoSet → Reverted
revert_block enc block s = revert_transactions enc block.transactions s
