-- ===== src/Mempool/Admission.antt =====
-- `validate_and_add_transaction` and its seven checks (rusty-core/src/mempool.rs). What the checks
-- log has no effect and is left out.
use rusty_coin.Common.{
  ℕ, ◌+◌, ◌-◌, ◌*◌, ◌%◌, min, Bool, true, false, ◌||◌, List, [], ◌∷◌, Option, none, some, length,
  ltb, ◌==◌, if◌then◌else◌,
}
use rusty_coin.Common.Words.{u64_mod, u64_max}
use rusty_coin.Common.HashMap.{insert}
use rusty_coin.Types.Tx.{TxInput, TxOutput, hash_key}
use rusty_coin.Types.Transaction.{Transaction, get_inputs, get_outputs, is_coinbase}
use rusty_coin.Script.Context.{Primitives}
use rusty_coin.Script.Engine.{new_engine, ok, err, panic}
use rusty_coin.Script.Standard.{execute_standard_script}
use rusty_coin.Script.Validate.{validate_transaction, is_empty}
use rusty_coin.Utxo.Set.{UtxoSet, get_utxo}
use rusty_coin.Mempool.Pool.{Mempool, identify, contains_transaction, pool_spends}

-- What a check reads of the `Blockchain`: the set, and the height, which may fail to be read.
pub record ChainView : Type 0 where
  pub utxo_set : UtxoSet
  pub current_block_height : Option ℕ

pub data Stage : Type 0 where
  structure_check signature_check input_check fee_check script_check policy_check : Stage
  conflict_check : Stage

pub data MempoolError : Type 0 where
  transaction_validation : (stage : Stage) → MempoolError
  serialization_error internal : MempoolError

-- `Ok(true)`, `Ok(false)`, an error, or a panic, which aborts the process.
pub data Verdict : Type 0 where
  valid invalid aborted : Verdict
  failed : (error : MempoolError) → Verdict

abbrev pub valid_if : Bool → Verdict
valid_if true = valid
valid_if false = invalid

unfoldable pub has_dust : List TxOutput → Bool
has_dust [] = false
has_dust (output ∷ outputs) = output.value == 0 || ltb output.value 546 || has_dust outputs

-- The saturating sum of the inputs' values, or `none` for one that is not in the set.
unfoldable pub input_total : UtxoSet → ℕ → List TxInput → Option ℕ
input_total utxo_set total [] = some total
input_total utxo_set total (input ∷ inputs) = elim (get_utxo input.previous_output utxo_set) [
  | none ↦ none
  | some utxo ↦ input_total utxo_set (min (total + utxo.output.value) u64_max) inputs
]

-- The wrapping sum of the outputs' values.
unfoldable pub output_total : ℕ → List TxOutput → ℕ
output_total total [] = total
output_total total (output ∷ outputs) = output_total ((total + output.value) % u64_mod) outputs

unfoldable pub has_large_script : List TxOutput → Bool
has_large_script [] = false
has_large_script (output ∷ outputs) =
    ltb 10000 (length output.script_pubkey) || has_large_script outputs

-- An input that is not in the set or that the pool spends.
unfoldable pub inputs_unspent : UtxoSet → Mempool → List TxInput → Bool
inputs_unspent utxo_set pool [] = true
inputs_unspent utxo_set pool (input ∷ inputs) =
    let rest = inputs_unspent utxo_set pool inputs in
    elim (get_utxo input.previous_output utxo_set) [
      | none ↦ false
      | some utxo ↦ if pool_spends pool input.previous_output then false else rest
    ]

unfoldable pub no_input_conflicts : Mempool → List TxInput → Bool
no_input_conflicts pool [] = true
no_input_conflicts pool (input ∷ inputs) =
    let rest = no_input_conflicts pool inputs in
    if pool_spends pool input.previous_output then false else rest

module _ (prims : Primitives) where
  unfoldable pub validate_transaction_structure : Transaction → Verdict
  unfolding has_dust
  validate_transaction_structure tx =
      if is_coinbase tx || is_empty (get_inputs tx) || is_empty (get_outputs tx)
      then invalid
      else elim (prims.serialize tx) [
        | none ↦ failed serialization_error
        | some bytes ↦
            valid_if
              (if ltb 100000 (length bytes) || has_dust (get_outputs tx) then false else true)
      ]

  -- The loop over the inputs from index `i` on. An empty unlocking script is passed over.
  unfoldable pub signatures_from : Transaction → UtxoSet → ℕ → List TxInput → Verdict
  signatures_from tx utxo_set i [] = valid
  signatures_from tx utxo_set i (input ∷ inputs) =
      let rest = signatures_from tx utxo_set (i + 1) inputs in
      if is_empty input.script_sig then rest else elim (get_utxo input.previous_output utxo_set) [
        | none ↦ invalid
        | some utxo ↦
            elim (execute_standard_script prims tx input.script_sig utxo.output.script_pubkey i
              new_engine) [ ok _ e ↦ rest | err x e ↦ invalid | panic ↦ aborted ]
      ]

  unfoldable pub validate_transaction_signatures : Transaction → UtxoSet → Verdict
  unfolding signatures_from
  validate_transaction_signatures tx utxo_set = signatures_from tx utxo_set 0 (get_inputs tx)

  unfoldable pub validate_transaction_inputs : Transaction → ChainView → Mempool → Verdict
  unfolding inputs_unspent
  validate_transaction_inputs tx chain pool =
      valid_if (inputs_unspent chain.utxo_set pool (get_inputs tx))

  -- The fee is at least 1000, and at most 10000 for a byte.
  unfoldable pub validate_transaction_fees : Transaction → ChainView → Verdict
  unfolding input_total output_total
  validate_transaction_fees tx chain = elim (input_total chain.utxo_set 0 (get_inputs tx)) [
    | none ↦ invalid
    | some input_value ↦
        let output_value = output_total 0 (get_outputs tx) in
        if ltb input_value output_value || ltb (input_value - output_value) 1000
        then invalid
        else elim (prims.serialize tx) [
          | none ↦ failed serialization_error
          | some bytes ↦ valid_if (
              if ltb (length bytes * 10000 % u64_mod) (input_value - output_value)
              then false
              else true)
        ]
  ]

  unfoldable pub validate_transaction_scripts : Transaction → ChainView → Verdict
  validate_transaction_scripts tx chain = elim chain.current_block_height [
    | none ↦ failed internal
    | some height ↦ elim (validate_transaction prims tx chain.utxo_set height new_engine) [
      | ok result e ↦ valid_if result
      | err x e ↦ invalid
      | panic ↦ aborted
    ]
  ]

  unfoldable pub validate_transaction_policy : Transaction → Verdict
  unfolding has_large_script
  validate_transaction_policy tx =
      valid_if (if has_large_script (get_outputs tx) then false else true)

  unfoldable pub validate_no_conflicts : Transaction → Mempool → Verdict
  unfolding no_input_conflicts
  validate_no_conflicts tx pool = valid_if (no_input_conflicts pool (get_inputs tx))

-- `Ok(true)` with the new pool, `Ok(false)`, an error, or a panic.
pub data Admission : Type 0 where
  admitted : (pool : Mempool) → Admission
  duplicate : Admission
  refused : (error : MempoolError) → Admission
  crashed : Admission

-- `if !check? { return Err(error); }`, and the code after it.
abbrev pub check_then : Verdict → Stage → Admission → Admission
check_then valid stage later = later
check_then invalid stage later = refused (transaction_validation stage)
check_then aborted stage later = crashed
check_then (failed error) stage later = refused error

unfoldable pub validate_and_add_transaction :
    Primitives → Transaction → ChainView → Mempool → Admission
unfolding contains_transaction validate_transaction_structure validate_transaction_signatures
    validate_transaction_inputs validate_transaction_fees validate_transaction_scripts
    validate_transaction_policy validate_no_conflicts
validate_and_add_transaction prims tx chain pool = elim (identify prims tx) [
  | none ↦ crashed
  | some txid ↦
      if contains_transaction txid pool
      then duplicate
      else check_then (validate_transaction_structure prims tx) structure_check (
          check_then (validate_transaction_signatures prims tx chain.utxo_set) signature_check (
            check_then (validate_transaction_inputs prims tx chain pool) input_check (
              check_then (validate_transaction_fees prims tx chain) fee_check (
                check_then (validate_transaction_scripts prims tx chain) script_check (
                  check_then (validate_transaction_policy prims tx) policy_check (
                    check_then (validate_no_conflicts prims tx pool) conflict_check
                      (admitted (insert txid tx pool))))))))
]
