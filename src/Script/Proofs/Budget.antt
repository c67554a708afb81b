-- ===== src/Script/Proofs/Budget.antt =====
-- The limits of one execution.
use rusty_coin.Common.{ℕ, zero, suc, ◌+◌, ◌≤◌, ◌≡◌, arith, [], ◌∷◌, length}
use rusty_coin.Common.Words.{Bytes}
use rusty_coin.Script.Opcode.{Opcode}
use rusty_coin.Script.Context.{Context}
use rusty_coin.Script.Ops.Flow.{skip_opcode}
use rusty_coin.Script.Proofs.Frame.{Frame, dispatch-Frame}
use rusty_coin.Script.Execute.{instruction, check_depth, round, run, execute}
use rusty_coin.Script.Engine.{Engine, ok, bind_ok}

-- The limits hold of an engine between two instructions.
pub record WithinLimits (e : Engine) : Type 0 where
  pub depth : length e.stack ≤ 100
  pub budget : e.opcode_count ≤ 200

skip_opcode-Frame :
    (op : Opcode) (e : Engine)
    → (skip_opcode op e).opcode_count ≡ e.opcode_count
      × ((skip_opcode op e).sig_op_count ≡ e.sig_op_count)
      × ((skip_opcode op e).stack ≡ e.stack)
unfolding skip_opcode
skip_opcode-Frame Opcode.op_if e = ground arith
skip_opcode-Frame _ e = ground arith

module _ (c : Context) where
  instruction_limits :
      (op : Opcode) (rest : Bytes) (e : Engine) (n : ℕ) (e' : Engine)
      → length e.stack ≤ 100
      → instruction c op rest e ≡ ok n e'
      → (length e'.stack ≤ 100) × Frame e e'
  unfolding instruction check_depth
  instruction_limits op rest e n e' d h =
      grind (arith, dispatch-Frame c op rest, skip_opcode-Frame op e)

  round_limits :
      (b : ℕ) (rest : Bytes) (e : Engine) (n : ℕ) (e' : Engine)
      → WithinLimits e
      → round c b rest e ≡ ok n e'
      → WithinLimits e'
        × (e.opcode_count + 1 ≡ e'.opcode_count)
        × (e'.sig_op_count ≤ e.sig_op_count + 1)
  unfolding round
  round_limits b rest e n e' w h = grind (arith, instruction_limits)

  -- sig ops counted by a run are at most the opcodes that it executed
  pub record RunLimits (e e' : Engine) : Type 0 where
    pub within : WithinLimits e'
    pub counted : e.opcode_count ≤ e'.opcode_count
    pub sig_ops : e'.sig_op_count + e.opcode_count ≤ e.sig_op_count + e'.opcode_count

  run_limits :
      (n : ℕ) (script : Bytes) (e e' : Engine)
      → WithinLimits e
      → run c n script e ≡ ok tt e'
      → RunLimits e e'
  unfolding run
  run_limits n [] e e' w h = ground arith
  run_limits (suc n) (b ∷ rest) e e' w h = run_limits n rest e e' w h
  run_limits zero (b ∷ rest) e e' w h =
      let (m, middle, first, later) = bind_ok (round c b rest) (λ n. run c n rest) e h in
      let now = round_limits b rest e m middle w first in
      ground (arith, run_limits m rest middle e' now.0 later)

  -- A script that runs to its end within the limits has ended within the limits: at most a hundred
  -- values stand on the stack, and at most two hundred opcodes were counted. It counted one
  -- signature operation for an opcode at most.
  pub execute-RunLimits :
      (script : Bytes) (e e' : Engine)
      → WithinLimits e
      → execute c script e ≡ ok tt e'
      → RunLimits e e'
  unfolding execute
  execute-RunLimits script e e' w h = ground (arith, run_limits 0 script e e' w)
