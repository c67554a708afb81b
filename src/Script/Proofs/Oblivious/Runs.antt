-- ===== src/Script/Proofs/Oblivious/Runs.antt =====
-- No operation, no instruction and no run looks at the count of signature operations.
use rusty_coin.Common.{ℕ, zero, suc, ◌+◌, refl, arith, leb, List, [], ◌∷◌}
use rusty_coin.Common.Words.{Bytes}
use rusty_coin.Types.Tx.{Hash}
use rusty_coin.Script.Opcode.{Opcode, from_byte}
use rusty_coin.Script.Context.{Context}
use rusty_coin.Script.Ops.Signature.{
  pop_values, some_key_verifies, count_verified, op_checkmultisig, op_checkmultisigverify,
  calculate_sighash, count_sig_op, first_byte, stack_holds,
}
use rusty_coin.Script.Ops.Splice.{from_bool}
use rusty_coin.Script.Ops.Flow.{skip_opcode}
use rusty_coin.Script.Execute.{operate, dispatch, check_depth, instruction, round, run, execute}
use rusty_coin.Script.Engine.{ok, pop_data, push_data_n}
use rusty_coin.Script.Proofs.Oblivious.{
  IsOblivious, bind-IsOblivious, pop_data-IsOblivious, push_data-IsOblivious, pure-IsOblivious,
  op_verify-IsOblivious,
}

module _ (c : Context) where
  count_sig_op-IsOblivious : IsOblivious (count_sig_op c)
  unfolding count_sig_op
  count_sig_op-IsOblivious = record { at = λ e e' h. ground arith }

  first_byte-IsOblivious : (v : Bytes) → IsOblivious (first_byte c v)
  unfolding first_byte
  first_byte-IsOblivious [] = record { at = λ e e' h. refl }
  first_byte-IsOblivious (b ∷ bs) = record { at = λ e e' h. ground arith }

  stack_holds-IsOblivious : (n : ℕ) → IsOblivious (stack_holds c n)
  unfolding stack_holds
  stack_holds-IsOblivious n = record { at = λ e e' h. ground arith }

  calculate_sighash-IsOblivious : IsOblivious (calculate_sighash c)
  unfolding calculate_sighash
  calculate_sighash-IsOblivious = record { at = λ e e' h. ground arith }

  pop_values-IsOblivious : (n : ℕ) → IsOblivious (pop_values c n)
  unfolding pop_values
  pop_values-IsOblivious zero = pure-IsOblivious []
  pop_values-IsOblivious (suc n) = bind-IsOblivious pop_data pop_data-IsOblivious λ value.
      bind-IsOblivious (pop_values c n) (pop_values-IsOblivious n)
        λ rest. pure-IsOblivious (value ∷ rest)

  some_key_verifies-IsOblivious :
      (m : Hash) (s : Bytes) (keys : List Bytes) → IsOblivious (some_key_verifies c m s keys)
  unfolding some_key_verifies
  some_key_verifies-IsOblivious m s [] = record { at = λ e e' h. ground arith }
  some_key_verifies-IsOblivious m s (k ∷ keys) = record {
    at = λ e e' h. ground (arith, (some_key_verifies-IsOblivious m s keys).at e e' h);
  }

  count_verified-IsOblivious :
      (m : Hash) (keys signatures : List Bytes) → IsOblivious (count_verified c m keys signatures)
  unfolding count_verified
  count_verified-IsOblivious m keys [] = pure-IsOblivious 0
  count_verified-IsOblivious m keys (s ∷ signatures) =
      bind-IsOblivious (some_key_verifies c m s keys) (some_key_verifies-IsOblivious m s keys) λ b.
        bind-IsOblivious (count_verified c m keys signatures)
          (count_verified-IsOblivious m keys signatures) λ n. pure-IsOblivious _

  op_checkmultisig-IsOblivious : IsOblivious (op_checkmultisig c)
  unfolding op_checkmultisig
  op_checkmultisig-IsOblivious = bind-IsOblivious (count_sig_op c) count_sig_op-IsOblivious λ _.
      bind-IsOblivious pop_data pop_data-IsOblivious λ key_count.
        bind-IsOblivious (first_byte c key_count) (first_byte-IsOblivious key_count) λ n.
          bind-IsOblivious (stack_holds c n) (stack_holds-IsOblivious n) λ _.
            bind-IsOblivious (pop_values c n) (pop_values-IsOblivious n) λ keys.
              bind-IsOblivious pop_data pop_data-IsOblivious λ signature_count.
                bind-IsOblivious (first_byte c signature_count)
                  (first_byte-IsOblivious signature_count)
                  λ k. bind-IsOblivious (stack_holds c k) (stack_holds-IsOblivious k) λ _.
                    bind-IsOblivious (pop_values c k) (pop_values-IsOblivious k) λ signatures.
                      bind-IsOblivious pop_data pop_data-IsOblivious λ dummy.
                        bind-IsOblivious (calculate_sighash c) calculate_sighash-IsOblivious
                          λ message.
                            bind-IsOblivious (count_verified c message keys signatures)
                              (count_verified-IsOblivious message keys signatures)
                              λ verified. push_data-IsOblivious (from_bool (leb k verified))

  op_checkmultisigverify-IsOblivious : IsOblivious (op_checkmultisigverify c)
  unfolding op_checkmultisigverify
  op_checkmultisigverify-IsOblivious =
      bind-IsOblivious (op_checkmultisig c) op_checkmultisig-IsOblivious λ _. op_verify-IsOblivious

  operate-IsOblivious : (op : Opcode) → IsOblivious (operate c op)
  unfolding operate
  operate-IsOblivious Opcode.op_check_multi_sig = op_checkmultisig-IsOblivious
  operate-IsOblivious Opcode.op_check_multi_sig_verify = op_checkmultisigverify-IsOblivious
  operate-IsOblivious _ = record { at = λ e e' h. ground arith }

  push_data_n-IsOblivious : (rest : Bytes) (k : ℕ) → IsOblivious (push_data_n rest k)
  unfolding push_data_n
  push_data_n-IsOblivious rest k = record { at = λ e e' h. ground arith }

  dispatch-IsOblivious : (op : Opcode) (rest : Bytes) → IsOblivious (dispatch c op rest)
  unfolding dispatch
  dispatch-IsOblivious Opcode.op_pushdata1 rest = push_data_n-IsOblivious rest 1
  dispatch-IsOblivious Opcode.op_pushdata2 rest = push_data_n-IsOblivious rest 2
  dispatch-IsOblivious Opcode.op_pushdata4 rest = push_data_n-IsOblivious rest 4
  dispatch-IsOblivious op rest =
      bind-IsOblivious (operate c op) (operate-IsOblivious op) λ _. pure-IsOblivious 0

  check_depth-IsOblivious : (n : ℕ) → IsOblivious (check_depth c n)
  unfolding check_depth
  check_depth-IsOblivious n = record { at = λ e e' h. ground arith }

  skip-IsOblivious : (op : Opcode) → IsOblivious (λ e. ok (zero) (skip_opcode op e))
  unfolding skip_opcode
  skip-IsOblivious Opcode.op_if = record { at = λ e e' h. ground arith }
  skip-IsOblivious _ = record { at = λ e e' h. ground arith }

  instruction-IsOblivious : (op : Opcode) (rest : Bytes) → IsOblivious (instruction c op rest)
  unfolding instruction
  instruction-IsOblivious op rest = record {
    at = λ e e' h. ground (
      arith,
      (skip-IsOblivious op).at e e' h,
      (bind-IsOblivious (dispatch c op rest) (dispatch-IsOblivious op rest)
            check_depth-IsOblivious).at
          e e' h,
    );
  }

  round-IsOblivious : (b : ℕ) (rest : Bytes) → IsOblivious (round c b rest)
  unfolding round
  round-IsOblivious b rest = record {
    at = λ e e' h. ground (
      arith,
      (instruction-IsOblivious (from_byte b) rest).at
          (record e { opcode_count = e.opcode_count + 1 })
          (record e' { opcode_count = e'.opcode_count + 1 }),
    );
  }

  run-IsOblivious : (n : ℕ) (script : Bytes) → IsOblivious (run c n script)
  unfolding run
  run-IsOblivious n [] = record { at = λ e e' h. ground arith }
  run-IsOblivious zero (b ∷ rest) =
      bind-IsOblivious (round c b rest) (round-IsOblivious b rest) λ n. run-IsOblivious n rest
  run-IsOblivious (suc n) (b ∷ rest) = run-IsOblivious n rest

  -- Two engines that differ only in their count of signature operations run a script alike.
  pub execute-IsOblivious : (script : Bytes) → IsOblivious (execute c script)
  unfolding execute
  execute-IsOblivious script = record {
    at = λ e e' h. ground (arith, (run-IsOblivious 0 script).at e e' h);
  }
