-- ===== src/Script/Proofs/Frame.antt =====
-- What an instruction leaves alone: the count of opcodes; and the count of signature operations
-- grows by one at most.
use rusty_coin.Common.{ℕ, zero, suc, ◌+◌, ◌≤◌, ◌≡◌, arith, List, [], ◌∷◌, Bool}
use rusty_coin.Common.Words.{Bytes}
use rusty_coin.Types.Tx.{Hash}
use rusty_coin.Script.Opcode.{Opcode}
use rusty_coin.Script.Context.{Context}
use rusty_coin.Script.Ops.Signature.{
  pop_values, some_key_verifies, count_verified, op_checkmultisig, op_checkmultisigverify,
  calculate_sighash,
}
use rusty_coin.Script.Execute.{operate, dispatch}
use rusty_coin.Script.Engine.{Engine, ok, push_data_n}

-- An engine after an instruction that succeeds, beside the one before.
pub record Frame (e e' : Engine) : Type 0 where
  pub opcodes : e'.opcode_count ≡ e.opcode_count
  pub sig_ops_low : e.sig_op_count ≤ e'.sig_op_count
  pub sig_ops_high : e'.sig_op_count ≤ e.sig_op_count + 1

module _ (c : Context) where
  -- Both counts stay as they are.
  abbrev Quiet : Engine → Engine → Type 0
  Quiet e e' = (e'.opcode_count ≡ e.opcode_count) × (e'.sig_op_count ≡ e.sig_op_count)

  pop_values-Quiet :
      (n : ℕ) (e : Engine) (vs : List Bytes) (e' : Engine)
      → pop_values c n e ≡ ok vs e'
      → Quiet e e'
  unfolding pop_values
  pop_values-Quiet zero e vs e' h = ground arith
  pop_values-Quiet (suc n) e vs e' h = grind (arith, pop_values-Quiet n)

  some_key_verifies-eq :
      (m : Hash) (s : Bytes) (keys : List Bytes) (e : Engine) (b : Bool) (e' : Engine)
      → some_key_verifies c m s keys e ≡ ok b e'
      → e' ≡ e
  unfolding some_key_verifies
  some_key_verifies-eq m s [] e b e' h = ground arith
  some_key_verifies-eq m s (k ∷ keys) e b e' h =
      ground (arith, some_key_verifies-eq m s keys e b e')

  count_verified-eq :
      (m : Hash) (keys signatures : List Bytes) (e : Engine) (n : ℕ) (e' : Engine)
      → count_verified c m keys signatures e ≡ ok n e'
      → e' ≡ e
  unfolding count_verified
  count_verified-eq m keys [] e n e' h = ground arith
  count_verified-eq m keys (s ∷ signatures) e n e' h =
      grind (arith, count_verified-eq m keys signatures, some_key_verifies-eq m s keys)

  calculate_sighash-eq :
      (e : Engine) (m : Hash) (e' : Engine) → calculate_sighash c e ≡ ok m e' → e' ≡ e
  unfolding calculate_sighash
  calculate_sighash-eq e m e' h = ground arith

  op_checkmultisig-Frame : (e e' : Engine) → op_checkmultisig c e ≡ ok tt e' → Frame e e'
  unfolding op_checkmultisig
  op_checkmultisig-Frame e e' h = grind (arith, pop_values-Quiet, count_verified-eq)

  op_checkmultisigverify-Frame :
      (e e' : Engine) → op_checkmultisigverify c e ≡ ok tt e' → Frame e e'
  unfolding op_checkmultisigverify
  op_checkmultisigverify-Frame e e' h = grind (arith, pop_values-Quiet, count_verified-eq)

  operate-Frame : (op : Opcode) (e e' : Engine) → operate c op e ≡ ok tt e' → Frame e e'
  unfolding operate
  operate-Frame Opcode.op_check_multi_sig e e' h = op_checkmultisig-Frame e e' h
  operate-Frame Opcode.op_check_multi_sig_verify e e' h = op_checkmultisigverify-Frame e e' h
  operate-Frame _ e e' h = ground arith

  push_data_n-Frame :
      (rest : Bytes) (k : ℕ) (e : Engine) (n : ℕ) (e' : Engine)
      → push_data_n rest k e ≡ ok n e'
      → Frame e e'
  unfolding push_data_n
  push_data_n-Frame rest k e n e' h = ground arith

  -- Every instruction that succeeds keeps the count of opcodes and counts one signature operation
  -- at most.
  pub dispatch-Frame :
      (op : Opcode) (rest : Bytes) (e : Engine) (n : ℕ) (e' : Engine)
      → dispatch c op rest e ≡ ok n e'
      → Frame e e'
  unfolding dispatch
  dispatch-Frame Opcode.op_pushdata1 rest e n e' h = push_data_n-Frame rest 1 e n e' h
  dispatch-Frame Opcode.op_pushdata2 rest e n e' h = push_data_n-Frame rest 2 e n e' h
  dispatch-Frame Opcode.op_pushdata4 rest e n e' h = push_data_n-Frame rest 4 e n e' h
  dispatch-Frame op rest e n e' h = grind (arith, operate-Frame op)
