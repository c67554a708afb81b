-- ===== src/Validation/Inputs.antt =====
-- The check of one transaction against the chain (rusty-consensus/src/validation.rs).
use rusty_coin.Common.{
  ℕ, ◌+◌, ◌-◌, ◌*◌, ◌%◌, Bool, not, ◌&&◌, List, [], ◌∷◌, leb, ltb, if◌then◌else◌,
}
use rusty_coin.Common.Result.{ok, err, ◌>>=◌, ◌>>◌}
use rusty_coin.Common.Words.{u32_mod}
use rusty_coin.Types.Tx.{OutPoint, TxInput, Utxo}
use rusty_coin.Types.Transaction.{Transaction, get_inputs, get_outputs, is_coinbase}
use rusty_coin.Script.Engine.{Outcome, new_engine}
use rusty_coin.Script.Validate.{verify_script_with_sig_op_count, is_empty}
use rusty_coin.Utxo.Validate.{contains}
use rusty_coin.Validation.Context.{
  Checked, ConsensusError, ValidationContext, panicked, reject, require, ok_or, checked_add,
  empty_transaction, transaction_too_large, coinbase_has_inputs, non_coinbase_has_no_inputs,
  duplicate_input, missing_tx_input, coinbase_not_mature, invalid_script_sig, invalid_proof,
  negative_fee, insufficient_fee, serialization_error,
}
use rusty_coin.Validation.Locktime.{validate_locktime_and_sequence}
use rusty_coin.Validation.Outputs.{check_outputs, sum_outputs}

-- `MIN_RELAY_FEE_PER_BYTE` (rusty-core/src/constants.rs)
abbrev pub min_relay_fee_per_byte : ℕ
min_relay_fee_per_byte = 1

module _ (c : ValidationContext) where
  -- `get_utxo(...)?.ok_or_else(MissingTxInput)?`
  unfoldable pub find_utxo : OutPoint → Checked Utxo
  find_utxo outpoint = do utxo ← c.get_utxo outpoint; ok_or utxo missing_tx_input

  -- `bincode::serialized_size(tx)?`, which is within the limit.
  unfoldable pub checked_size : Transaction → Checked ℕ
  checked_size tx = do
    size ← ok_or (c.tx_size tx) serialization_error
    require (leb size c.params.max_tx_size) (transaction_too_large size c.params.max_tx_size)
    ok size

  -- One input's scripts on a new engine: the transaction's count of signature operations after it.
  unfoldable pub verify_input : ConsensusError → Transaction → ℕ → TxInput → Utxo → ℕ → Checked ℕ
  unfolding verify_script_with_sig_op_count
  verify_input error tx i input utxo count =
      let verified =
        verify_script_with_sig_op_count c.prims tx input.script_sig utxo.output.script_pubkey i
          count new_engine in
      elim verified.0 [
        | Outcome.ok _ e ↦ ok verified.1
        | Outcome.err x e ↦ reject error
        | Outcome.panic ↦ err panicked
      ]

  -- An output of a coinbase transaction that may not be spent at this height, in `u32`.
  unfoldable pub is_immature : Utxo → ℕ → Bool
  is_immature utxo current_height =
      utxo.is_coinbase
      && ltb current_height
          ((utxo.creation_height % u32_mod + c.params.coinbase_maturity) % u32_mod)

  -- The loop of `validate_transaction` over the inputs from index `i` on: the sum of their values.
  unfoldable pub check_inputs :
      Transaction → ℕ → List OutPoint → ℕ → ℕ → ℕ → List TxInput → Checked ℕ
  unfolding contains is_immature verify_input
  check_inputs tx current_height seen count total i [] = ok total
  check_inputs tx current_height seen count total i (input ∷ inputs) = do
    require (not (contains input.previous_output seen)) duplicate_input
    utxo ← find_utxo input.previous_output
    require (not (is_immature utxo current_height)) coinbase_not_mature
    count' ← verify_input invalid_script_sig tx i input utxo count
    total' ← checked_add total utxo.output.value (invalid_proof "Input value too large")
    check_inputs tx current_height (input.previous_output ∷ seen) count' total' (i + 1) inputs

  -- The fee covers the size.
  abbrev pub require_fee : ℕ → ℕ → Checked (Unit {0})
  require_fee fee size =
      require (leb (min_relay_fee_per_byte * size) fee)
        (insufficient_fee fee (min_relay_fee_per_byte * size))

  -- The branch of `validate_transaction` that is not for a coinbase transaction.
  unfoldable pub check_spending : Transaction → ℕ → ℕ → ℕ → Checked (Unit {0})
  unfolding check_inputs sum_outputs validate_locktime_and_sequence
  check_spending tx size current_height median_time_past = do
    require (not (is_empty (get_inputs tx))) non_coinbase_has_no_inputs
    total_input ← check_inputs tx current_height [] 0 0 0 (get_inputs tx)
    total_output ← sum_outputs 0 (get_outputs tx)
    require (leb total_output total_input) negative_fee
    require_fee (total_input - total_output) size
    validate_locktime_and_sequence tx current_height median_time_past

  unfoldable pub check_coinbase_inputs : Transaction → Checked (Unit {0})
  check_coinbase_inputs tx = require (is_empty (get_inputs tx)) coinbase_has_inputs

  unfoldable pub validate_transaction : Transaction → ℕ → ℕ → Checked (Unit {0})
  unfolding checked_size check_spending check_coinbase_inputs check_outputs
  validate_transaction tx current_height median_time_past = do
    require (not (is_empty (get_inputs tx) && is_empty (get_outputs tx))) empty_transaction
    size ← checked_size tx
    (if is_coinbase tx
        then check_coinbase_inputs tx
        else check_spending tx size current_height median_time_past)
    check_outputs c.params (get_outputs tx)
