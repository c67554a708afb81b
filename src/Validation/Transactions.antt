-- ===== src/Validation/Transactions.antt =====
-- `validate_transactions` (rusty-consensus/src/validation.rs).
use rusty_coin.Common.{
  ℕ, ◌+◌, ◌-◌, ◌%◌, Bool, true, false, not, ◌&&◌, List, [], ◌∷◌, ltb, leb, if◌then◌else◌,
}
use rusty_coin.Common.Result.{ok, ◌>>=◌, ◌>>◌}
use rusty_coin.Common.Words.{u64_mod}
use rusty_coin.Types.Tx.{OutPoint, TxInput, Utxo}
use rusty_coin.Types.Transaction.{Transaction, get_inputs, get_outputs, is_coinbase}
use rusty_coin.Script.Validate.{is_empty}
use rusty_coin.Utxo.Validate.{contains}
use rusty_coin.Validation.Context.{
  Checked, ValidationContext, require, ok_or, checked_add, serialization_error, coinbase_not_mature,
  invalid_proof, invalid_coinbase_input, empty_transaction, no_coinbase_transaction,
}
use rusty_coin.Validation.Inputs.{find_utxo, require_fee}
use rusty_coin.Validation.Locktime.{check_lock_time}
use rusty_coin.Validation.Outputs.{sum_outputs}
use rusty_coin.Validation.Payload.{check_payload}
use rusty_coin.Validation.Structure.{validate_transaction_structure}

-- What the loops carry: the outpoints spent in the block so far, and a sum.
pub record Spending : Type 0 where
  pub spent_outputs : List OutPoint
  pub total : ℕ

unfoldable pub starts_with_coinbase : List Transaction → Bool
starts_with_coinbase [] = false
starts_with_coinbase (tx ∷ txs) = is_coinbase tx

module _ (c : ValidationContext) where
  -- A coinbase output that may not be spent at this height, in `u64`.
  unfoldable pub is_too_young : Utxo → ℕ → Bool
  is_too_young utxo height =
      utxo.is_coinbase && ltb height ((utxo.creation_height + c.params.coinbase_maturity) % u64_mod)

  -- The loop over one transaction's inputs.
  unfoldable pub spend_inputs : ℕ → List OutPoint → ℕ → List TxInput → Checked Spending
  unfolding is_too_young contains
  spend_inputs height spent total [] = ok (record { spent_outputs = spent; total = total })
  spend_inputs height spent total (input ∷ inputs) = do
    utxo ← find_utxo c input.previous_output
    require (not (is_too_young utxo height)) coinbase_not_mature
    require (not (contains input.previous_output spent))
        (invalid_proof "Duplicate transaction detected")
    total' ← checked_add total utxo.output.value (invalid_proof "Input value too large")
    spend_inputs height (input.previous_output ∷ spent) total' inputs

  -- The fees with those of a transaction that is not a coinbase one.
  unfoldable pub add_fee : Transaction → ℕ → ℕ → ℕ → Checked ℕ
  add_fee tx total_input total_output total_fees = do
    require (leb total_output total_input) (invalid_proof "Spending more than inputs")
    size ← ok_or (c.tx_size tx) serialization_error
    require_fee c (total_input - total_output) size
    checked_add total_fees (total_input - total_output) (invalid_proof "Fee overflow")

  -- The end of the loop's body, from the sums of the inputs and the outputs on.
  unfoldable pub settle : ℕ → ℕ → Transaction → ℕ → ℕ → Spending → Checked Spending
  unfolding add_fee check_lock_time
  settle height current_time tx fees total_output inputs = do
    total_fees ← (if is_coinbase tx then ok fees else add_fee tx inputs.total total_output fees)
    check_lock_time tx height current_time
    ok (record { spent_outputs = inputs.spent_outputs; total = total_fees })

  -- The part of the loop's body that sums up: the outpoints spent by then, and the fees.
  unfoldable pub account : ℕ → ℕ → Spending → Transaction → Checked Spending
  unfolding spend_inputs sum_outputs settle
  account height current_time s tx = do
    inputs ← spend_inputs height s.spent_outputs 0 (get_inputs tx)
    total_output ← sum_outputs 0 (get_outputs tx)
    settle height current_time tx s.total total_output inputs

  -- The loop over the transactions; the flag says that the first one is behind.
  unfoldable pub check_each : ℕ → ℕ → Bool → Spending → List Transaction → Checked (Unit {0})
  unfolding validate_transaction_structure check_payload account
  check_each height current_time later s [] = ok tt
  check_each height current_time later s (tx ∷ txs) = do
    require (not (later && is_coinbase tx)) invalid_coinbase_input
    validate_transaction_structure c tx
    check_payload c height tx
    s' ← account height current_time s tx
    check_each height current_time true s' txs

  unfoldable pub validate_transactions : List Transaction → ℕ → ℕ → Checked (Unit {0})
  unfolding check_each starts_with_coinbase
  validate_transactions transactions height current_time = do
    require (not (is_empty transactions)) empty_transaction
    require (starts_with_coinbase transactions) no_coinbase_transaction
    check_each height current_time false (record { spent_outputs = []; total = 0 }) transactions
