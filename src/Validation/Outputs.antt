-- ===== src/Validation/Outputs.antt =====
-- The checks on outputs and their scripts (rusty-consensus/src/validation.rs).
use rusty_coin.Common.{
  ℕ, ◌+◌, Bool, false, not, ◌&&◌, ◌||◌, List, [], ◌∷◌, none, some, length, get_elem?, ltb, leb,
  ◌==◌, if◌then◌else◌,
}
use rusty_coin.Common.Result.{ok, ◌>>=◌, ◌>>◌}
use rusty_coin.Common.Words.{Bytes}
use rusty_coin.Types.Tx.{TxOutput}
use rusty_coin.Validation.Context.{
  Checked, ConsensusParams, require, checked_add, invalid_script, invalid_proof, dust_output,
  output_value_zero,
}

unfoldable pub is_op_return_output : Bytes → Bool
is_op_return_output [] = false
is_op_return_output (byte ∷ bytes) = byte == 0x6a

-- `script_pubkey[i] == byte`, where the length has been tested.
abbrev pub byte_at : Bytes → ℕ → ℕ → Bool
byte_at bytes i byte = elim (get_elem? bytes i) [ none ↦ false | some b ↦ b == byte ]

unfoldable pub is_p2pkh : Bytes → Bool
is_p2pkh bytes =
    length bytes == 25
    && byte_at bytes 0 0x76
    && byte_at bytes 1 0xa9
    && byte_at bytes 2 0x14
    && byte_at bytes 23 0x88
    && byte_at bytes 24 0xac

unfoldable pub is_p2sh : Bytes → Bool
is_p2sh bytes =
    length bytes == 23 && byte_at bytes 0 0xa9 && byte_at bytes 1 0x14 && byte_at bytes 22 0x87

unfoldable pub is_p2pk : Bytes → Bool
is_p2pk bytes =
    length bytes == 35 && byte_at bytes 0 0x21 && byte_at bytes 34 0xac
    || length bytes == 67 && byte_at bytes 0 0x41 && byte_at bytes 66 0xac

-- The loop over the bytes.
unfoldable pub has_invalid_opcode : Bytes → Bool
has_invalid_opcode [] = false
has_invalid_opcode (byte ∷ bytes) = byte == 0xff || has_invalid_opcode bytes

abbrev pub max_script_pubkey_size : ℕ
max_script_pubkey_size = 520

-- The match on the length, its arms in their order.
unfoldable pub match_script_pubkey : Bytes → Checked (Unit {0})
unfolding is_p2pkh is_p2sh is_p2pk is_op_return_output has_invalid_opcode
match_script_pubkey bytes =
    if is_p2pkh bytes || is_p2sh bytes || is_p2pk bytes
    then ok tt
    else if is_op_return_output bytes
    then require (leb (length bytes) 82) (invalid_script "OP_RETURN script too large")
    else require (not (has_invalid_opcode bytes)) (invalid_script "Invalid opcode")

unfoldable pub validate_script_pubkey : Bytes → Checked (Unit {0})
unfolding match_script_pubkey
validate_script_pubkey bytes = do
  require (leb (length bytes) max_script_pubkey_size) (invalid_script "Script too large")
  require (ltb 0 (length bytes)) (invalid_script "Empty script")
  match_script_pubkey bytes

unfoldable pub validate_masternode_collateral_script : Bytes → Checked (Unit {0})
unfolding has_invalid_opcode is_p2pkh is_p2sh
validate_masternode_collateral_script bytes = do
  require (ltb 0 (length bytes)) (invalid_script "Empty masternode collateral script")
  require (leb (length bytes) 1000) (invalid_script "Masternode collateral script too large")
  require (not (has_invalid_opcode bytes))
      (invalid_script "Invalid opcode in masternode collateral script")
  require (is_p2pkh bytes || is_p2sh bytes || ltb (length bytes) 1000)
      (invalid_script "Unrecognized masternode collateral script pattern")

-- The test for dust, which a data output passes.
unfoldable pub is_spendable_or_data : ConsensusParams → TxOutput → Bool
unfolding is_op_return_output
is_spendable_or_data params output =
    is_op_return_output output.script_pubkey || leb params.dust_limit output.value

-- The last loop of `validate_transaction`.
unfoldable pub check_outputs : ConsensusParams → List TxOutput → Checked (Unit {0})
unfolding is_spendable_or_data
check_outputs params [] = ok tt
check_outputs params (output ∷ outputs) = do
  require (is_spendable_or_data params output) (dust_output output.value)
  validate_script_pubkey output.script_pubkey
  check_outputs params outputs

-- The loop that sums up the outputs' values.
unfoldable pub sum_outputs : ℕ → List TxOutput → Checked ℕ
sum_outputs total [] = ok total
sum_outputs total (output ∷ outputs) = do
  total' ← checked_add total output.value (invalid_proof "Output value too large")
  sum_outputs total' outputs

-- The loop of `validate_transaction_structure` over the outputs from index `i` on.
unfoldable pub sum_valid_outputs : ConsensusParams → ℕ → ℕ → List TxOutput → Checked ℕ
unfolding is_spendable_or_data
sum_valid_outputs params i total [] = ok total
sum_valid_outputs params i total (output ∷ outputs) = do
  require (not (output.value == 0)) (output_value_zero i)
  total' ← checked_add total output.value (invalid_proof "Output value too large")
  require (is_spendable_or_data params output) (dust_output output.value)
  sum_valid_outputs params (i + 1) total' outputs
