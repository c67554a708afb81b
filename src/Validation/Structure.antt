-- ===== src/Validation/Structure.antt =====
-- `validate_transaction_structure` (rusty-consensus/src/validation.rs).
use rusty_coin.Common.{
  ℕ, ◌+◌, ◌-◌, Bool, true, false, not, ◌||◌, List, [], ◌∷◌, leb, ◌==◌, if◌then◌else◌, replicate,
}
use rusty_coin.Common.Result.{ok, ◌>>=◌, ◌>>◌}
use rusty_coin.Types.Tx.{OutPoint, TxInput, OutPoint-discrete}
use rusty_coin.Types.Transaction.{Transaction, get_inputs, get_outputs, get_lock_time, is_coinbase}
use rusty_coin.Script.Validate.{is_empty}
use rusty_coin.Validation.Context.{
  Checked, ValidationContext, require, reject, checked_add, empty_transaction, invalid_script,
  no_outputs, invalid_coinbase, invalid_proof, invalid_sequence, spending_more_than_inputs,
  invalid_lock_time,
}
use rusty_coin.Validation.Inputs.{find_utxo, checked_size, verify_input, require_fee}
use rusty_coin.Validation.Outputs.{sum_valid_outputs}

abbrev pub max_sequence : ℕ
max_sequence = 0xffffffff

-- The outpoint that a coinbase input must name.
abbrev pub null_outpoint : OutPoint
null_outpoint = record { txid = replicate 32 0; vout = max_sequence }

unfoldable pub is_null : OutPoint → Bool
is_null outpoint = elim (OutPoint-discrete outpoint null_outpoint) [ yes p ↦ true | no p ↦ false ]

-- `inputs.any(|input| input.sequence == u32::MAX)`
unfoldable pub any_final : List TxInput → Bool
any_final [] = false
any_final (input ∷ inputs) = input.sequence == max_sequence || any_final inputs

-- The checks of a coinbase transaction, after which the function returns.
unfoldable pub check_null_input : List TxInput → Checked (Unit {0})
unfolding is_null
check_null_input [] = reject (invalid_coinbase "coinbase transaction must have exactly one input")
check_null_input (input ∷ []) =
    require (is_null input.previous_output) (invalid_coinbase "coinbase input must be null")
check_null_input (input ∷ other ∷ inputs) =
    reject (invalid_coinbase "coinbase transaction must have exactly one input")

module _ (c : ValidationContext) where
  -- The loop that runs the scripts of the inputs from index `i` on.
  unfoldable pub verify_inputs : Transaction → ℕ → ℕ → List TxInput → Checked (Unit {0})
  unfolding verify_input
  verify_inputs tx count i [] = ok tt
  verify_inputs tx count i (input ∷ inputs) = do
    utxo ← find_utxo c input.previous_output
    count' ←
        verify_input c (invalid_script "script validation failed for input") tx i input utxo count
    verify_inputs tx count' (i + 1) inputs

  -- The loop that sums up the inputs' values.
  unfoldable pub sum_input_values : ℕ → ℕ → List TxInput → Checked ℕ
  sum_input_values lock_time total [] = ok total
  sum_input_values lock_time total (input ∷ inputs) = do
    utxo ← find_utxo c input.previous_output
    total' ← checked_add total utxo.output.value (invalid_proof "Input value too large")
    require (lock_time == 0 || not (input.sequence == max_sequence)) invalid_sequence
    sum_input_values lock_time total' inputs

  -- The checks of the other transactions, from the inputs' values on.
  unfoldable pub check_balance : Transaction → ℕ → ℕ → Checked (Unit {0})
  unfolding sum_input_values any_final
  check_balance tx size total_output = do
    total_input ← sum_input_values (get_lock_time tx) 0 (get_inputs tx)
    require (leb total_output total_input) spending_more_than_inputs
    require_fee c (total_input - total_output) size
    require (get_lock_time tx == 0 || not (any_final (get_inputs tx)))
        (invalid_lock_time "all inputs must have sequence < MAX_UINT if lock_time is set")

  unfoldable pub validate_transaction_structure : Transaction → Checked (Unit {0})
  unfolding checked_size verify_inputs sum_valid_outputs check_null_input check_balance
  validate_transaction_structure tx = do
    size ← checked_size c tx
    require (is_coinbase tx || not (is_empty (get_inputs tx))) empty_transaction
    (if is_coinbase tx then ok tt else verify_inputs tx 0 0 (get_inputs tx))
    require (not (is_empty (get_outputs tx))) no_outputs
    total_output ← sum_valid_outputs c.params 0 0 (get_outputs tx)
    (if is_coinbase tx
        then check_null_input (get_inputs tx)
        else check_balance tx size total_output)
