-- ===== src/Script/Proofs/Panics.antt =====
-- Which scripts abort the process.
use rusty_coin.Common.{
  ℕ, zero, suc, ◌+◌, ◌≤◌, ◌<◌, ◌≡◌, ◌≢◌, refl, inl, inr, arith, All, List, [], ◌∷◌, length,
}
use rusty_coin.Common.Words.{Bytes, from_le_bytes, u64_mod}
use rusty_coin.Script.Ops.Splice.{op_substr}
use rusty_coin.Script.Opcode.{Opcode, to_byte, from_byte}
use rusty_coin.Script.Context.{Context}
use rusty_coin.Script.Proofs.Codes.{from_byte-cases}
use rusty_coin.Script.Execute.{operate, dispatch, instruction, round, run, execute}
use rusty_coin.Script.Engine.{Engine, Outcome, ok, err, panic, push_data_n}

-- A byte that is none of OP_SUBSTR, OP_CHECKMULTISIG and OP_CHECKMULTISIGVERIFY.
abbrev pub IsCalm : ℕ → Type 0
IsCalm b = (b ≢ 0x7f) × (b ≢ 0xae) × (b ≢ 0xaf)

module _ (c : Context) where
  operate-ne-panic : (op : Opcode) (e : Engine) → IsCalm (to_byte op) → operate c op e ≢ panic
  unfolding operate to_byte
  operate-ne-panic Opcode.op_sub_str e h p = absurd (h.0 refl)
  operate-ne-panic Opcode.op_check_multi_sig e h p = absurd (h.1 refl)
  operate-ne-panic Opcode.op_check_multi_sig_verify e h p = absurd (h.2 refl)
  operate-ne-panic _ e h p = ground arith

  push_data_n-ne-panic : (rest : Bytes) (k : ℕ) (e : Engine) → push_data_n rest k e ≢ panic
  unfolding push_data_n
  push_data_n-ne-panic rest k e p = ground arith

  dispatch-ne-panic :
      (op : Opcode) (rest : Bytes) (e : Engine) → IsCalm (to_byte op) → dispatch c op rest e ≢ panic
  unfolding dispatch
  dispatch-ne-panic Opcode.op_pushdata1 rest e h p = push_data_n-ne-panic rest 1 e p
  dispatch-ne-panic Opcode.op_pushdata2 rest e h p = push_data_n-ne-panic rest 2 e p
  dispatch-ne-panic Opcode.op_pushdata4 rest e h p = push_data_n-ne-panic rest 4 e p
  dispatch-ne-panic op rest e h p = ground (arith, operate-ne-panic op e h)

  from_byte-IsCalm : (b : ℕ) → IsCalm b → IsCalm (to_byte (from_byte b))
  unfolding to_byte
  from_byte-IsCalm b h = elim (from_byte-cases b) [ inl p ↦ rw p (omega arith) | inr p ↦ rw p h ]

  round-ne-panic : (b : ℕ) (rest : Bytes) (e : Engine) → IsCalm b → round c b rest e ≢ panic
  unfolding round instruction
  round-ne-panic b rest e h p =
      let counted = record e { opcode_count = e.opcode_count + 1 } in
      ground (arith, dispatch-ne-panic (from_byte b) rest counted (from_byte-IsCalm b h))

  run-ne-panic :
      (n : ℕ) (script : Bytes) (e : Engine) → All IsCalm script → run c n script e ≢ panic
  unfolding run
  run-ne-panic n [] e h p = ground arith
  run-ne-panic (suc n) (b ∷ rest) e h p = run-ne-panic n rest e h.1 p
  run-ne-panic zero (b ∷ rest) e h p =
      unless (λ n e'. run-ne-panic n rest e' h.1) (round c b rest e) refl p
    where
      unless :
          ((n : ℕ) (e' : Engine) → run c n rest e' ≢ panic)
          → (o : Outcome ℕ) → round c b rest e ≡ o
          → ◌≡◌ {A = Outcome (Unit {0})}
              (elim o [ ok n e' ↦ run c n rest e' | err x e' ↦ err x e' | panic ↦ panic ])
              panic
          → ⊥
      unless later (ok n e') q r = later n e' r
      unless later (err x e') q r = cc
      unless later panic q r = round-ne-panic b rest e h.0 q

  -- No script without the bytes of OP_SUBSTR, OP_CHECKMULTISIG and OP_CHECKMULTISIGVERIFY panics.
  pub execute-ne-panic :
      (script : Bytes) (e : Engine) → All IsCalm script → execute c script e ≢ panic
  unfolding execute
  execute-ne-panic script e h p = ground (arith, run-ne-panic 0 script e h)

  -- OP_0 OP_CHECKMULTISIG, whatever follows: the count of keys is read from an empty value. Every
  -- engine that skips nothing and has room for two more opcodes and one more value panics.
  pub execute-checkmultisig_panics :
      (rest : Bytes) (e : Engine)
      → e.skip_depth ≡ 0
      → e.opcode_count ≤ 198
      → length e.stack ≤ 99
      → length rest ≤ 9998
      → execute c (0x00 ∷ 0xae ∷ rest) e ≡ panic
  unfolding execute run round instruction dispatch operate from_byte
  execute-checkmultisig_panics rest e s o d l = ground arith

-- OP_SUBSTR panics where the offset and the size wrap to an end before the offset.
pub op_substr_panics :
    (size offset value : Bytes) (stack : List Bytes) (e : Engine)
    → e.stack ≡ size ∷ offset ∷ value ∷ stack
    → length size ≤ 8
    → length offset ≤ 8
    → from_le_bytes size < u64_mod
    → u64_mod ≤ from_le_bytes offset + from_le_bytes size
    → from_le_bytes offset + from_le_bytes size ≤ u64_mod + length value
    → op_substr e ≡ panic
unfolding op_substr
op_substr_panics size offset value stack e s a b c d f = ground arith
