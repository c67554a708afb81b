-- ===== src/Script/Validate.antt =====
-- The entry points that run scripts: `validate_transaction`, `verify_script` and
-- `verify_script_with_sig_op_count` (rusty-core/src/script/script_engine.rs).
use rusty_coin.Common.{
  ℕ, ◌+◌, leb, if◌then◌else◌, Bool, true, false, not, ◌&&◌, none, some, List, [], ◌∷◌, ◌++◌, length,
}
use rusty_coin.Common.HashMap.{HashMap, get}
use rusty_coin.Common.Words.{Bytes}
use rusty_coin.Types.Tx.{OutPoint, TxInput, Utxo, outpoint_key}
use rusty_coin.Types.Transaction.{Transaction, get_inputs, is_coinbase}
use rusty_coin.Script.Context.{Primitives, Context}
use rusty_coin.Script.Execute.{execute}
use rusty_coin.Script.Engine.{
  Engine, Outcome, Exec, ok, err, panic, script_too_large, too_many_sig_ops, verification_failed,
  guard, ◌>>=◌, ◌>>◌, pop_data, is_false, new_engine, max_script_bytes, max_sig_ops,
}

abbrev pub is_empty {ℓ} : {A : Type ℓ} → List A → Bool
is_empty [] = true
is_empty (x ∷ xs) = false

-- What each script execution starts from: all but the count of signature operations is reset.
abbrev pub reset : Engine → Engine
reset e = record e {
  stack = [];
  alt_stack = [];
  opcode_count = 0;
  control_stack = [];
  skip_depth = 0;
}

-- The value that is left is true, and it is the only one.
unfoldable pub leaves_true : Engine → Outcome Bool
unfolding pop_data is_false
leaves_true e = elim (pop_data e) [
  | ok result e' ↦ ok (not (is_false result) && is_empty e'.stack) e'
  | err x e' ↦ ok false e'
  | panic ↦ panic
]

-- The last check of `verify_script`.
unfoldable pub final_check : Exec (Unit {0})
unfolding pop_data
final_check = do
  result ← pop_data
  λ e. guard (not (is_false result) && is_empty e.stack) verification_failed e

-- After both scripts: the limit on signature operations, then the last check.
unfoldable pub finish_counted : Exec (Unit {0})
unfolding final_check
finish_counted = do λ e. guard (leb e.sig_op_count max_sig_ops) too_many_sig_ops e; final_check

abbrev pub fits : Bytes → Bytes → Bool
fits script_sig script_pubkey =
    leb (length script_sig) max_script_bytes && leb (length script_pubkey) max_script_bytes

module _ (prims : Primitives) (tx : Transaction) where
  abbrev pub context : ℕ → ℕ → Bytes → Context
  context height input_index script_pubkey = record {
    prims = prims;
    tx = tx;
    current_block_height = height;
    input_index = input_index;
    script_pubkey = script_pubkey;
  }

  -- The body of the loop of `validate_transaction`, from the combined script on.
  unfoldable pub validate_input : ℕ → ℕ → TxInput → Utxo → Exec Bool
  unfolding leaves_true
  validate_input height input_index input prev_output e =
      elim (execute (context height input_index prev_output.output.script_pubkey)
        (input.script_sig ++ prev_output.output.script_pubkey) (reset e)) [
          | ok _ e' ↦ leaves_true e'
          | err x e' ↦ ok false e'
          | panic ↦ panic
        ]

  unfoldable pub validate_inputs : HashMap OutPoint Utxo → ℕ → ℕ → List TxInput → Exec Bool
  validate_inputs utxo_set height input_index [] e = ok true e
  validate_inputs utxo_set height input_index (input ∷ inputs) e = elim (is_coinbase tx) [
    | true ↦ validate_inputs utxo_set height (input_index + 1) inputs e
    | false ↦ elim (get input.previous_output utxo_set) [
      | none ↦ ok false e
      | some prev_output ↦ elim (validate_input height input_index input prev_output e) [
        | ok valid e' ↦ elim valid [
          | true ↦ validate_inputs utxo_set height (input_index + 1) inputs e'
          | false ↦ ok false e'
        ]
        | err x e' ↦ err x e'
        | panic ↦ panic
      ]
    ]
  ]

  unfoldable pub validate_transaction : HashMap OutPoint Utxo → ℕ → Exec Bool
  unfolding validate_inputs
  validate_transaction utxo_set height e =
      validate_inputs utxo_set height 0 (get_inputs tx) (record e { sig_op_count = 0 })

  -- The two scripts one after the other, at block height 0.
  unfoldable pub execute_both : ℕ → Bytes → Bytes → Exec (Unit {0})
  execute_both input_index script_sig script_pubkey = do
    execute (context 0 input_index script_pubkey) script_sig
    execute (context 0 input_index script_pubkey) script_pubkey

  unfoldable pub verify_script : Bytes → Bytes → ℕ → Outcome (Unit {0})
  unfolding final_check execute_both
  verify_script script_sig script_pubkey input_index =
      (do
        guard (fits script_sig script_pubkey) script_too_large
        execute_both input_index script_sig script_pubkey
        final_check)
        new_engine

  -- The result, and the transaction's count of signature operations, which an early error leaves.
  unfoldable pub verify_script_with_sig_op_count :
      Bytes → Bytes → ℕ → ℕ → Engine → Outcome (Unit {0}) × ℕ
  unfolding execute_both finish_counted
  verify_script_with_sig_op_count script_sig script_pubkey input_index count e =
      if fits script_sig script_pubkey
      then elim (execute_both input_index script_sig script_pubkey
          (record (reset e) { sig_op_count = count })) [
            | ok _ e' ↦ (finish_counted e', e'.sig_op_count)
            | err x e' ↦ (err x e', count)
            | panic ↦ (panic, count)
          ]
      else (err script_too_large e, count)
