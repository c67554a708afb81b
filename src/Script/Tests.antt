-- ===== src/Script/Tests.antt =====
-- The theorems on scripts at small scripts, in a transaction of one input that spends one output.
use rusty_coin.Common.{
  ℕ, zero, suc, ◌+◌, ◌≡◌, ◌≢◌, ◌≤◌, ◌<◌, ◌↔◌, ◌⊎◌, inl, inr, refl, List, [], ◌∷◌, ◌++◌, Bool, true,
  false, Option, none, some, arith, replicate, length, All,
}
use rusty_coin.Common.Words.{Bytes, from_le_bytes}
use rusty_coin.Common.HashMap.{HashMap, get}
use rusty_coin.Types.Tx.{OutPoint, TxInput, TxOutput, Utxo}
use rusty_coin.Types.Transaction.{Transaction, standard, get_inputs, is_coinbase}
use rusty_coin.Script.Opcode.{Opcode, from_byte, to_byte}
use rusty_coin.Script.Engine.{Engine, ok, panic, new_engine}
use rusty_coin.Script.Context.{Context, Primitives}
use rusty_coin.Script.Ops.Locktime.{op_checklocktimeverify}
use rusty_coin.Script.Execute.{execute}
use rusty_coin.Script.Standard.{is_p2pkh, create_p2pkh}
use rusty_coin.Script.Validate.{validate_transaction, verify_script_with_sig_op_count}
use rusty_coin.Script.Proofs.Codes.{from_byte-to_byte}
use rusty_coin.Script.Proofs.Budget.{RunLimits, execute-RunLimits}
use rusty_coin.Script.Proofs.Skipping.{open_branch_script, Hides, validate_transaction-open_branch}
use rusty_coin.Script.Proofs.Panics.{execute-ne-panic}
use rusty_coin.Script.Proofs.Locks.{IsMet, op_checklocktimeverify_iff}
use rusty_coin.Script.Proofs.Independent.{
  accepted, all_valid_alone, validate_transaction-independent,
}

-- Digests that change nothing, and signatures that are all right.
abbrev primitives : Primitives
primitives = record {
  sha256 = λ bytes. bytes;
  sha1 = λ bytes. bytes;
  ripemd160 = λ bytes. bytes;
  blake3 = λ bytes. bytes;
  public_key_ok = λ key. true;
  signature_ok = λ signature. true;
  verify = λ key message signature. true;
  serialize = λ tx. some (0 ∷ []);
}

abbrev spent : OutPoint
spent = record { txid = 1 ∷ []; vout = 0 }

abbrev input : TxInput
input = record {
  prev_out_hash = 1 ∷ [];
  prev_out_index = 0;
  previous_output = spent;
  script_sig = open_branch_script;
  sequence = 0;
  witness = [];
}

abbrev tx : Transaction
tx = standard 1 (input ∷ []) [] 100 0 []

-- OP_DUP OP_CHECKSIG
abbrev locking : Bytes
locking = 0x76 ∷ 0xac ∷ []

abbrev prev_output : Utxo
prev_output = record {
  output = record { value = 5000; script_pubkey = locking; memo = none };
  is_coinbase = false;
  creation_height = 7;
}

abbrev utxo_set : HashMap OutPoint Utxo
utxo_set = (spent, prev_output) ∷ []

abbrev run_context : Context
run_context = record {
  prims = primitives;
  tx = tx;
  current_block_height = 120;
  input_index = 0;
  script_pubkey = locking;
}

abbrev hash : Bytes
hash = replicate 20 7

abbrev to_hash : TxOutput
to_hash = record {
  value = 1000;
  script_pubkey = 0x76 ∷ 0xa9 ∷ 0x14 ∷ (hash ++ 0x88 ∷ 0xac ∷ []);
  memo = none;
}

from_byte-to_byte_example : from_byte (to_byte Opcode.op_dup) ≡ Opcode.op_dup
from_byte-to_byte_example = from_byte-to_byte Opcode.op_dup

-- OP_1 OP_DUP OP_CHECKSIG
abbrev signed : Bytes
signed = 0x51 ∷ locking

abbrev after_signed : Engine
after_signed = record {
  stack = (1 ∷ []) ∷ [];
  alt_stack = [];
  opcode_count = 3;
  sig_op_count = 1;
  control_stack = [];
  skip_depth = 0;
}

execute-signed : execute run_context signed new_engine ≡ ok tt after_signed
unfolding execute rusty_coin.Script.Execute.run rusty_coin.Script.Execute.round
    rusty_coin.Script.Execute.instruction rusty_coin.Script.Execute.dispatch from_byte
    rusty_coin.Script.Execute.operate
execute-signed = refl

execute-RunLimits_example : RunLimits run_context new_engine after_signed
execute-RunLimits_example =
    execute-RunLimits run_context signed new_engine after_signed
      (record { depth = omega arith; budget = omega arith }) execute-signed

execute-ne-panic_example : execute run_context signed new_engine ≢ panic
execute-ne-panic_example = execute-ne-panic run_context signed new_engine (omega arith)

abbrev wrapping : Engine
wrapping = record new_engine { stack = replicate 8 255 ∷ (1 ∷ []) ∷ (7 ∷ 8 ∷ []) ∷ [] }

wrapping_size : from_le_bytes (replicate 8 255) ≡ 18446744073709551615
unfolding from_le_bytes
wrapping_size = refl

wrapping_offset : from_le_bytes (1 ∷ []) ≡ 1
unfolding from_le_bytes
wrapping_offset = refl

-- Two copies of a signature under two keys.
abbrev two_of_two : Engine
two_of_two = record new_engine {
  stack = (2 ∷ []) ∷ (5 ∷ []) ∷ (6 ∷ []) ∷ (2 ∷ []) ∷ (9 ∷ []) ∷ (9 ∷ []) ∷ [] ∷ [];
}

abbrev locked : Engine
locked = record new_engine { stack = (100 ∷ []) ∷ [] }

op_checklocktimeverify_iff_example :
    (op_checklocktimeverify run_context locked ≡ ok tt new_engine)
    ↔ IsMet run_context (from_le_bytes (100 ∷ []))
op_checklocktimeverify_iff_example =
    op_checklocktimeverify_iff run_context (100 ∷ []) [] locked refl (omega arith)

to_hash_template : to_hash.script_pubkey ≡ create_p2pkh hash
unfolding create_p2pkh
to_hash_template = refl

to_hash_is_p2pkh : is_p2pkh to_hash.script_pubkey ≡ true
unfolding is_p2pkh
to_hash_is_p2pkh = refl

input-Hides : Hides primitives tx utxo_set input
unfolding get rusty_coin.Types.Tx.outpoint_key rusty_coin.Common.ℕ_discrete
input-Hides = record {
  prev_output = prev_output;
  unspent = refl;
  unlocking = refl;
  plain = omega arith;
  short = omega arith;
}

inputs-Hides : All (Hides primitives tx utxo_set) (get_inputs tx)
unfolding get_inputs
inputs-Hides = (input-Hides, tt)

validate_transaction-open_branch_example :
    (e : Engine) × (validate_transaction primitives tx utxo_set 120 new_engine ≡ ok true e)
validate_transaction-open_branch_example =
    validate_transaction-open_branch primitives tx utxo_set 120 new_engine inputs-Hides

tx_not_coinbase : is_coinbase tx ≡ false
unfolding is_coinbase
tx_not_coinbase = refl

validate_transaction-independent_example :
    accepted (validate_transaction primitives tx utxo_set 120 new_engine)
    ≡ all_valid_alone primitives tx utxo_set 120 0 (get_inputs tx)
validate_transaction-independent_example =
    validate_transaction-independent primitives tx utxo_set 120 new_engine tx_not_coinbase

-- OP_1 under OP_DUP OP_CHECKSIG, after 19 signature operations of earlier inputs.
counted_to_20 :
    verify_script_with_sig_op_count primitives tx (0x51 ∷ []) locking 0 19 new_engine
    ≡ (ok tt (record new_engine { opcode_count = 3; sig_op_count = 20 }), 20)
unfolding verify_script_with_sig_op_count execute rusty_coin.Script.Execute.run
    rusty_coin.Script.Execute.round rusty_coin.Script.Execute.instruction
    rusty_coin.Script.Execute.dispatch from_byte rusty_coin.Script.Execute.operate
    rusty_coin.Script.Engine.is_false
counted_to_20 = refl
