-- ===== src/Script/Proofs/Skipping.antt =====
-- Skipped code. A branch that is open when the unlocking script ends hides the locking script.
use rusty_coin.Common.{
  ℕ, ◌+◌, ◌≤◌, ◌<◌, ◌≡◌, ◌≢◌, refl, inl, inr, arith, some, Bool-cases, All, List, [], ◌∷◌, ◌++◌,
  length, true, false,
}
use rusty_coin.Common.Words.{Bytes}
use rusty_coin.Types.Tx.{OutPoint, TxInput, Utxo, outpoint_key}
use rusty_coin.Types.Transaction.{Transaction, get_inputs, is_coinbase}
use rusty_coin.Common.HashMap.{HashMap, get}
use rusty_coin.Script.Opcode.{Opcode, to_byte, from_byte}
use rusty_coin.Script.Context.{Primitives, Context}
use rusty_coin.Script.Ops.Flow.{skip_opcode}
use rusty_coin.Script.Proofs.Codes.{from_byte-cases}
use rusty_coin.Script.Execute.{operate, dispatch, instruction, round, run, execute}
use rusty_coin.Script.Validate.{
  reset, context, verify_script, validate_input, validate_inputs, validate_transaction,
}
use rusty_coin.Script.Engine.{Engine, ok, new_engine, is_false}

-- A byte that is none of OP_IF, OP_NOTIF, OP_ELSE and OP_ENDIF.
abbrev pub IsPlain : ℕ → Type 0
IsPlain b = (b ≢ 0x63) × (b ≢ 0x64) × (b ≢ 0x67) × (b ≢ 0x68)

skip_opcode_plain : (op : Opcode) (e : Engine) → IsPlain (to_byte op) → skip_opcode op e ≡ e
unfolding skip_opcode to_byte
skip_opcode_plain Opcode.op_if e h = absurd (h.0 refl)
skip_opcode_plain Opcode.op_not_if e h = absurd (h.1 refl)
skip_opcode_plain Opcode.op_else e h = absurd (h.2 refl)
skip_opcode_plain Opcode.op_end_if e h = absurd (h.3 refl)
skip_opcode_plain _ e h = refl

skip_byte_plain : (b : ℕ) (e : Engine) → IsPlain b → skip_opcode (from_byte b) e ≡ e
unfolding skip_opcode
skip_byte_plain b e h = elim (from_byte-cases b) [
  | inl p ↦ rw p
  | inr p ↦ skip_opcode_plain (from_byte b) e (rw p h)
]

module _ (c : Context) where
  round_skipped :
      (b : ℕ) (rest : Bytes) (e : Engine)
      → IsPlain b
      → 0 < e.skip_depth
      → e.opcode_count < 200
      → round c b rest e ≡ ok 0 (record e { opcode_count = e.opcode_count + 1 })
  unfolding round instruction
  round_skipped b rest e p s h =
      ground (arith, skip_byte_plain b (record e { opcode_count = e.opcode_count + 1 }) p)

  -- While instructions are skipped, code with no conditional in it runs to its end without an
  -- error and changes nothing but the count of opcodes, by its length.
  pub run_skipped :
      (script : Bytes) (e : Engine)
      → All IsPlain script
      → 0 < e.skip_depth
      → e.opcode_count + length script ≤ 200
      → run c 0 script e ≡ ok tt (record e { opcode_count = e.opcode_count + length script })
  unfolding run
  run_skipped [] e p s h = ground arith
  run_skipped (b ∷ rest) e p s h =
      rw (round_skipped b rest e p.0 s (omega arith), run)
        (ground (arith, run_skipped rest (record e { opcode_count = e.opcode_count + 1 }) p.1 s))

-- OP_1 OP_0 OP_IF
abbrev pub open_branch_script : Bytes
open_branch_script = 0x51 ∷ 0x00 ∷ 0x63 ∷ []

-- What these three leave behind: a value that is true, and an open branch that is not taken.
abbrev branch_opened : ℕ → Engine
branch_opened sig_op_count = record {
  stack = (1 ∷ []) ∷ [];
  alt_stack = [];
  opcode_count = 3;
  sig_op_count = sig_op_count;
  control_stack = false ∷ [];
  skip_depth = 1;
}

module _ (c : Context) where
  run_open_branch :
      (script : Bytes) (e : Engine)
      → run c 0 (open_branch_script ++ script) (reset e)
        ≡ run c 0 script (branch_opened e.sig_op_count)
  unfolding run round instruction dispatch operate from_byte is_false
  run_open_branch script e = refl

  execute_open_branch :
      (script : Bytes) (e : Engine)
      → All IsPlain script
      → length script ≤ 197
      → execute c (open_branch_script ++ script) (reset e)
        ≡ ok tt (record (branch_opened e.sig_op_count) { opcode_count = 3 + length script })
  unfolding execute
  execute_open_branch script e p h =
      ground
        (arith, run_open_branch script e, run_skipped c script (branch_opened e.sig_op_count) p)

  execute_skipped :
      (script : Bytes)
      → All IsPlain script
      → length script ≤ 197
      → execute c script (branch_opened 0)
        ≡ ok tt (record (branch_opened 0) { opcode_count = 3 + length script })
  unfolding execute
  execute_skipped script p h = ground (arith, run_skipped c script (branch_opened 0) p)

module _ (prims : Primitives) (tx : Transaction) where
  -- Whatever the locking script asks for: if it has at most 197 bytes and no conditional among
  -- them, `verify_script` accepts the unlocking script OP_1 OP_0 OP_IF.
  pub verify_script-open_branch :
      (script_pubkey : Bytes) (input_index : ℕ)
      → All IsPlain script_pubkey
      → length script_pubkey ≤ 197
      → (e : Engine) × (verify_script prims tx open_branch_script script_pubkey input_index
          ≡ ok tt e)
  unfolding verify_script is_false
  verify_script-open_branch script_pubkey input_index p h =
      let c = context prims tx 0 input_index script_pubkey in
      (
        record (branch_opened 0) { stack = []; opcode_count = 3 + length script_pubkey },
        ground (arith, execute_open_branch c [] new_engine tt, execute_skipped c script_pubkey p),
      )

  -- An input with that unlocking script, and the output that it spends.
  pub record Hides (utxo_set : HashMap OutPoint Utxo) (input : TxInput) : Type 0 where
    pub prev_output : Utxo
    pub unspent : get input.previous_output utxo_set ≡ some prev_output
    pub unlocking : input.script_sig ≡ open_branch_script
    pub plain : All IsPlain prev_output.output.script_pubkey
    pub short : length prev_output.output.script_pubkey ≤ 197

  validate_input-open_branch :
      (height i : ℕ) (input : TxInput) (prev : Utxo) (e : Engine)
      → input.script_sig ≡ open_branch_script
      → All IsPlain prev.output.script_pubkey
      → length prev.output.script_pubkey ≤ 197
      → (e' : Engine) × (validate_input prims tx height i input prev e ≡ ok true e')
  unfolding validate_input is_false
  validate_input-open_branch height i input prev e u p h =
      let c = context prims tx height i prev.output.script_pubkey in
      (
        record (branch_opened e.sig_op_count) {
          stack = [];
          opcode_count = 3 + length prev.output.script_pubkey;
        },
        ground (arith, execute_open_branch c prev.output.script_pubkey e p),
      )

  validate_inputs-open_branch :
      (utxo_set : HashMap OutPoint Utxo) (height i : ℕ) (inputs : List TxInput) (e : Engine)
      → All (Hides utxo_set) inputs
      → (e' : Engine) × (validate_inputs prims tx utxo_set height i inputs e ≡ ok true e')
  unfolding validate_inputs
  validate_inputs-open_branch utxo_set height i [] e h = (e, refl)
  validate_inputs-open_branch utxo_set height i (input ∷ inputs) e (x, h) =
      let (e1, first) =
        validate_input-open_branch height i input x.prev_output e x.unlocking x.plain x.short in
      let (e2, rest) = validate_inputs-open_branch utxo_set height (i + 1) inputs e1 h in
      let (e3, skipped) = validate_inputs-open_branch utxo_set height (i + 1) inputs e h in
      elim (Bool-cases (is_coinbase tx)) [
        | inl coinbase ↦ (e3, ground arith)
        | inr other ↦ (e2, ground (arith, x.unspent))
      ]

  -- A transaction all of whose inputs unlock by that script is valid to `validate_transaction`, at
  -- every height, if the outputs it spends have at most 197 bytes and no conditional.
  pub validate_transaction-open_branch :
      (utxo_set : HashMap OutPoint Utxo) (height : ℕ) (e : Engine)
      → All (Hides utxo_set) (get_inputs tx)
      → (e' : Engine) × (validate_transaction prims tx utxo_set height e ≡ ok true e')
  unfolding validate_transaction
  validate_transaction-open_branch utxo_set height e h =
      validate_inputs-open_branch utxo_set height 0 (get_inputs tx) (record e { sig_op_count = 0 })
        h
