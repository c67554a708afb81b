-- ===== src/Utxo/Validate.antt =====
-- The checks on a transaction's inputs and outputs against the set
-- (rusty-core/src/consensus/utxo_set.rs).
use rusty_coin.Common.{
  ℕ, ◌+◌, ◌-◌, ◌%◌, Bool, true, false, not, ◌&&◌, ◌||◌, List, [], ◌∷◌, Option, none, some, ltb, leb,
  ◌==◌, if◌then◌else◌,
}
use rusty_coin.Common.Words.{u64_mod, u64_max}
use rusty_coin.Types.Tx.{OutPoint, TxInput, TxOutput, Utxo, OutPoint-discrete}
use rusty_coin.Types.Transaction.{Transaction, get_inputs, get_outputs, get_lock_time, get_fee}
use rusty_coin.Script.Engine.{locktime_threshold}
use rusty_coin.Utxo.Set.{UtxoSet, get_utxo}

abbrev pub dust_limit : ℕ
dust_limit = 500

-- `spent_utxos_in_tx.contains`
unfoldable pub contains : OutPoint → List OutPoint → Bool
contains p [] = false
contains p (q ∷ qs) =
    let rest = contains p qs in elim (OutPoint-discrete q p) [ yes e ↦ true | no e ↦ rest ]

-- A coinbase output that is too young, at a height other than the highest.
unfoldable pub is_immature : Utxo → ℕ → ℕ → Bool
is_immature utxo height maturity =
    utxo.is_coinbase && not (height == u64_max) && ltb (height - utxo.creation_height) maturity

-- A lock time that is a height and not reached, at a height other than the highest.
unfoldable pub is_locked : ℕ → ℕ → Bool
is_locked lock_time height =
    not (height == u64_max)
    && ltb lock_time locktime_threshold
    && ltb 0 lock_time
    && ltb height lock_time

-- The loop over the inputs: the sum of the values, modulo 2 ^ 64, or `none` for `return false`.
unfoldable pub sum_inputs : UtxoSet → ℕ → ℕ → ℕ → List OutPoint → ℕ → List TxInput → Option ℕ
sum_inputs s lock_time height maturity spent total [] = some total
sum_inputs s lock_time height maturity spent total (input ∷ inputs) =
    elim (get_utxo input.previous_output s) [
      | none ↦ none
      | some utxo ↦
          let rest =
            sum_inputs s lock_time height maturity (input.previous_output ∷ spent)
              ((total + utxo.output.value) % u64_mod) inputs in
          if contains input.previous_output spent
            || is_immature utxo height maturity
            || is_locked lock_time height
          then none
          else rest
    ]

-- The loop over the outputs, likewise.
unfoldable pub sum_outputs : ℕ → ℕ → List TxOutput → Option ℕ
sum_outputs dust total [] = some total
sum_outputs dust total (output ∷ outputs) =
    let rest = sum_outputs dust ((total + output.value) % u64_mod) outputs in
    if ltb output.value dust then none else rest

unfoldable pub validate_transaction_comprehensive : UtxoSet → Transaction → ℕ → ℕ → ℕ → Bool
validate_transaction_comprehensive s tx height maturity dust =
    elim (sum_inputs s (get_lock_time tx) height maturity [] 0 (get_inputs tx)) [
      | none ↦ false
      | some total_input ↦ elim (sum_outputs dust 0 (get_outputs tx)) [
        | none ↦ false
        | some total_output ↦ leb ((total_output + get_fee tx) % u64_mod) total_input
      ]
    ]

unfoldable pub validate_transaction_inputs_with_params : UtxoSet → Transaction → ℕ → ℕ → Bool
validate_transaction_inputs_with_params s tx height maturity =
    validate_transaction_comprehensive s tx height maturity dust_limit

unfoldable pub validate_transaction_inputs_at_height : UtxoSet → Transaction → ℕ → Bool
validate_transaction_inputs_at_height s tx height =
    validate_transaction_inputs_with_params s tx height 100

unfoldable pub validate_transaction_inputs : UtxoSet → Transaction → Bool
validate_transaction_inputs s tx = validate_transaction_inputs_at_height s tx u64_max
