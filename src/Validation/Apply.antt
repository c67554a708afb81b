-- ===== src/Validation/Apply.antt =====
-- A validated block written to the database of unspent outputs: `apply_block_to_utxo_set`
-- (rusty-consensus/src/validation.rs) and the batch operations that it calls
-- (rusty-consensus/src/utxo_set.rs).
use rusty_coin.Common.{
  ℕ, suc, Bool, not, ◌&&◌, List, [], ◌∷◌, ◌++◌, Option, none, some, ite, if◌then◌else◌, ◌≡◌,
}
use rusty_coin.Common.Result.{Result, ok, err, ◌>>◌}
use rusty_coin.Types.Tx.{Hash, OutPoint, TxInput, TxOutput, Utxo, OutPoint-discrete}
use rusty_coin.Types.Transaction.{Transaction, get_inputs, get_outputs, is_coinbase}
use rusty_coin.Types.Block.{Block, Encoding, txid}
use rusty_coin.Utxo.Update.{outpoint_at}

-- An operation of a `WriteBatch` on the column of unspent outputs.
pub data Write : Type 0 where
  put_utxo : (outpoint : OutPoint) (utxo : Utxo) → Write
  delete_utxo : (outpoint : OutPoint) → Write

-- What a batch leaves at an outpoint, its operations done in their order.
unfoldable pub after : List Write → OutPoint → Option Utxo → Option Utxo
after [] p o = o
after (put_utxo q utxo ∷ batch) p o = after batch p (ite (OutPoint-discrete q p) (some utxo) o)
after (delete_utxo q ∷ batch) p o = after batch p (ite (OutPoint-discrete q p) none o)

-- The errors of the batch: what bincode does not encode, a missing column, what rocksdb refuses.
pub data ApplyError : Type 0 where
  serialization_error : ApplyError
  utxos_column_not_found : ApplyError
  write_error : ApplyError

-- The crates bincode and rocksdb: whether an entry can be encoded and the column of unspent outputs
-- is there, a read, and a batch that is written as a whole; `none` is the error of a write.
pub record Database : Type 1 where
  pub Db : Type 0
  pub encodes_key : OutPoint → Bool
  pub encodes_value : Utxo → Bool
  pub has_utxos_column : Db → Bool
  pub get_cf : Db → OutPoint → Option Utxo
  pub write : Db → List Write → Option Db
  pub get_cf-write :
      (db db' : Db) (batch : List Write) (p : OutPoint)
      → write db batch ≡ some db'
      → get_cf db' p ≡ after batch p (get_cf db p)

-- The loop over a transaction's inputs.
unfoldable pub delete_inputs : List TxInput → List Write
delete_inputs [] = []
delete_inputs (input ∷ inputs) = delete_utxo input.previous_output ∷ delete_inputs inputs

-- The loop over a transaction's outputs from index `i` on.
unfoldable pub put_outputs : Hash → Bool → ℕ → ℕ → List TxOutput → List Write
put_outputs id coinbase height i [] = []
put_outputs id coinbase height i (output ∷ outputs) =
    put_utxo (outpoint_at id i)
      (record { output = output; is_coinbase = coinbase; creation_height = height })
    ∷ put_outputs id coinbase height (suc i) outputs

unfoldable pub transaction_batch : Encoding → ℕ → Transaction → List Write
unfolding delete_inputs put_outputs
transaction_batch enc height tx =
    (if is_coinbase tx then [] else delete_inputs (get_inputs tx))
    ++ put_outputs (txid enc tx) (is_coinbase tx) height 0 (get_outputs tx)

-- The loop over the transactions.
unfoldable pub block_batch : Encoding → ℕ → List Transaction → List Write
unfolding transaction_batch
block_batch enc height [] = []
block_batch enc height (tx ∷ txs) = transaction_batch enc height tx ++ block_batch enc height txs

module _ (database : Database) (db : database.Db) where
  -- `put_utxo_in_batch` and `delete_utxo_in_batch`, as far as they can fail.
  unfoldable pub stage : Write → Result ApplyError (Unit {0})
  stage (put_utxo outpoint utxo) =
      if not (database.encodes_key outpoint && database.encodes_value utxo)
      then err serialization_error
      else if database.has_utxos_column db
      then ok tt
      else err utxos_column_not_found
  stage (delete_utxo outpoint) =
      if not (database.encodes_key outpoint)
      then err serialization_error
      else if database.has_utxos_column db
      then ok tt
      else err utxos_column_not_found

  -- The operations put into the batch one after the other; the first that fails ends it.
  unfoldable pub stage_all : List Write → Result ApplyError (Unit {0})
  unfolding stage
  stage_all [] = ok tt
  stage_all (operation ∷ batch) = stage operation >> stage_all batch

  -- `apply_batch`
  unfoldable pub apply_batch : List Write → Result ApplyError database.Db
  apply_batch batch = elim (database.write db batch) [ none ↦ err write_error | some db' ↦ ok db' ]

  unfoldable pub apply_block_to_utxo_set : Encoding → Block → ℕ → Result ApplyError database.Db
  unfolding block_batch stage_all apply_batch
  apply_block_to_utxo_set enc block height =
      stage_all (block_batch enc height block.transactions)
      >> apply_batch (block_batch enc height block.transactions)
