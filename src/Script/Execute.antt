-- ===== src/Script/Execute.antt =====
-- `ScriptEngine::execute` (rusty-core/src/script/script_engine.rs). The loop over the instruction
-- pointer is a recursion on the bytes that are left; a push moves the pointer past its data, and
-- the loop then drops that many bytes without reading an opcode.
use rusty_coin.Common.{ℕ, zero, suc, ◌+◌, leb, ltb, if◌then◌else◌, [], ◌∷◌, length}
use rusty_coin.Common.Words.{Bytes}
use rusty_coin.Script.Opcode.{Opcode, from_byte}
use rusty_coin.Script.Context.{Context}
use rusty_coin.Script.Ops.Stack.{
  op_dup, op_drop, op_nip, op_over, op_rot, op_swap, op_tuck, op_2drop, op_2dup, op_3dup, op_2over,
  op_2rot, op_2swap, op_pick, op_roll, op_toaltstack, op_fromaltstack,
}
use rusty_coin.Script.Ops.Splice.{
  op_equal, op_verify, op_equal_verify, op_cat, op_substr, op_left, op_right, op_size, op_invert,
  op_and, op_or, op_xor,
}
use rusty_coin.Script.Ops.Flow.{op_if, op_notif, op_else, op_endif, skip_opcode}
use rusty_coin.Script.Ops.Digest.{
  op_hash160, op_ripemd160, op_sha1, op_sha256, op_hash256, op_codeseparator,
}
use rusty_coin.Script.Ops.Signature.{
  op_checksig, op_checksigverify, op_checkmultisig, op_checkmultisigverify,
}
use rusty_coin.Script.Ops.Locktime.{op_checklocktimeverify, op_checksequenceverify}
use rusty_coin.Script.Engine.{
  ScriptError, Exec, ok, err, panic, invalid_opcode, stack_overflow, too_many_opcodes,
  script_too_large, pure, fail, ◌>>=◌, ◌>>◌, push_data, push_data_n, should_skip, max_script_bytes,
  max_opcode_count, max_stack_depth,
}

module _ (c : Context) where
  -- The match on an opcode that is not skipped.
  unfoldable pub operate : Opcode → Exec (Unit {0})
  unfolding push_data op_dup op_drop op_nip op_over op_rot op_swap op_tuck op_2drop op_2dup op_3dup
      op_2over op_2rot op_2swap op_pick op_roll op_toaltstack op_fromaltstack op_equal op_verify
      op_equal_verify op_cat op_substr op_left op_right op_size op_invert op_and op_or op_xor op_if
      op_notif op_else op_endif op_hash160 op_ripemd160 op_sha1 op_sha256 op_hash256
      op_codeseparator op_checksig op_checksigverify op_checkmultisig op_checkmultisigverify
      op_checklocktimeverify op_checksequenceverify
  operate Opcode.op0 = push_data []
  operate Opcode.op1 = push_data (1 ∷ [])
  operate Opcode.op2 = push_data (2 ∷ [])
  operate Opcode.op3 = push_data (3 ∷ [])
  operate Opcode.op4 = push_data (4 ∷ [])
  operate Opcode.op5 = push_data (5 ∷ [])
  operate Opcode.op6 = push_data (6 ∷ [])
  operate Opcode.op7 = push_data (7 ∷ [])
  operate Opcode.op8 = push_data (8 ∷ [])
  operate Opcode.op9 = push_data (9 ∷ [])
  operate Opcode.op10 = push_data (10 ∷ [])
  operate Opcode.op11 = push_data (11 ∷ [])
  operate Opcode.op12 = push_data (12 ∷ [])
  operate Opcode.op13 = push_data (13 ∷ [])
  operate Opcode.op14 = push_data (14 ∷ [])
  operate Opcode.op15 = push_data (15 ∷ [])
  operate Opcode.op16 = push_data (16 ∷ [])
  operate Opcode.op_dup = op_dup
  operate Opcode.op_hash160 = op_hash160 c.prims
  operate Opcode.op_equal = op_equal
  operate Opcode.op_equalverify = op_equal_verify
  operate Opcode.op_verify = op_verify
  operate Opcode.op_check_sig = op_checksig c
  operate Opcode.op_check_multi_sig = op_checkmultisig c
  operate Opcode.op_check_lock_time_verify = op_checklocktimeverify c
  operate Opcode.op_check_sequence_verify = op_checksequenceverify c
  operate Opcode.op_return = fail ScriptError.op_return
  operate Opcode.op_nop = pure tt
  operate Opcode.op_invalid_opcode = fail invalid_opcode
  operate Opcode.op_ripemd160 = op_ripemd160 c.prims
  operate Opcode.op_sha1 = op_sha1 c.prims
  operate Opcode.op_sha256 = op_sha256 c.prims
  operate Opcode.op_hash256 = op_hash256 c.prims
  operate Opcode.op_code_separator = op_codeseparator c.prims
  operate Opcode.op_check_sig_verify = op_checksigverify c
  operate Opcode.op_check_multi_sig_verify = op_checkmultisigverify c
  operate Opcode.op_if = op_if
  operate Opcode.op_not_if = op_notif
  operate Opcode.op_else = op_else
  operate Opcode.op_end_if = op_endif
  operate Opcode.op_to_alt_stack = op_toaltstack
  operate Opcode.op_from_alt_stack = op_fromaltstack
  operate Opcode.op_drop = op_drop
  operate Opcode.op_nip = op_nip
  operate Opcode.op_over = op_over
  operate Opcode.op_pick = op_pick
  operate Opcode.op_roll = op_roll
  operate Opcode.op_rot = op_rot
  operate Opcode.op_swap = op_swap
  operate Opcode.op_tuck = op_tuck
  operate Opcode.op2_drop = op_2drop
  operate Opcode.op2_dup = op_2dup
  operate Opcode.op3_dup = op_3dup
  operate Opcode.op2_over = op_2over
  operate Opcode.op2_rot = op_2rot
  operate Opcode.op2_swap = op_2swap
  operate Opcode.op_cat = op_cat
  operate Opcode.op_sub_str = op_substr
  operate Opcode.op_left = op_left
  operate Opcode.op_right = op_right
  operate Opcode.op_size = op_size
  operate Opcode.op_invert = op_invert
  operate Opcode.op_and = op_and
  operate Opcode.op_or = op_or
  operate Opcode.op_xor = op_xor
  operate _ = fail invalid_opcode

  -- The same with the pushes, which read on in the script: by how much the pointer moves.
  unfoldable pub dispatch : Opcode → Bytes → Exec ℕ
  dispatch Opcode.op_pushdata1 rest = push_data_n rest 1
  dispatch Opcode.op_pushdata2 rest = push_data_n rest 2
  dispatch Opcode.op_pushdata4 rest = push_data_n rest 4
  dispatch opcode rest = do operate opcode; pure 0

  unfoldable pub check_depth : ℕ → Exec ℕ
  check_depth n e = if ltb max_stack_depth (length e.stack) then err stack_overflow e else ok n e

  -- One round of the loop, after the limit on opcodes has been checked.
  unfoldable pub instruction : Opcode → Bytes → Exec ℕ
  unfolding should_skip check_depth
  instruction opcode rest e =
      if should_skip e
      then ok 0 (skip_opcode opcode e)
      else (do n ← dispatch opcode rest; check_depth n) e

  -- One round of the loop.
  unfoldable pub round : ℕ → Bytes → Exec ℕ
  round byte rest e =
      if leb max_opcode_count e.opcode_count
      then err too_many_opcodes e
      else instruction (from_byte byte) rest (record e { opcode_count = e.opcode_count + 1 })

  -- The loop; the first argument counts the bytes that a push has read already.
  unfoldable pub run : ℕ → Bytes → Exec (Unit {0})
  run n [] e = ok tt e
  run zero (byte ∷ rest) e = elim (round byte rest e) [
    | ok n e' ↦ run n rest e'
    | err x e' ↦ err x e'
    | panic ↦ panic
  ]
  run (suc n) (byte ∷ rest) e = run n rest e

  unfoldable pub execute : Bytes → Exec (Unit {0})
  execute script e =
      if ltb max_script_bytes (length script) then err script_too_large e else run 0 script e
