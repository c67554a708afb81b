-- ===== src/Script/Ops/Flow.antt =====
-- The conditionals. `control_stack` has the open branches, and `skip_depth` is positive while
-- instructions are skipped.
use rusty_coin.Common.{◌+◌, ◌-◌, ◌==◌, ltb, if◌then◌else◌, Bool, false, not, List, [], ◌∷◌}
use rusty_coin.Common.Words.{Bytes}
use rusty_coin.Script.Opcode.{Opcode}
use rusty_coin.Script.Engine.{Engine, Exec, ok, err, panic, invalid_stack_state, is_false}

-- The condition that an IF takes: an empty stack counts as not met, and loses nothing.
unfoldable pub take_condition : (Bytes → Bool) → Exec Bool
take_condition met e = elim e.stack [
  | [] ↦ ok false e
  | v ∷ rest ↦ ok (met v) (record e { stack = rest })
]

open_branch : Bool → Exec (Unit {0})
open_branch condition e = ok tt (
    if condition
    then record e { control_stack = condition ∷ e.control_stack }
    else record e { control_stack = condition ∷ e.control_stack; skip_depth = 1 })

-- The shared body of `op_if` and `op_notif`.
unfoldable pub branch_on : (Bytes → Bool) → Exec (Unit {0})
unfolding take_condition open_branch
branch_on met e =
    if ltb 0 e.skip_depth
    then ok tt (record e { skip_depth = e.skip_depth + 1 })
    else elim (take_condition met e) [
      | ok condition e' ↦ open_branch condition e'
      | err x e' ↦ err x e'
      | panic ↦ panic
    ]

unfoldable pub op_if : Exec (Unit {0})
unfolding branch_on
op_if = branch_on (λ v. not (is_false v))

unfoldable pub op_notif : Exec (Unit {0})
unfolding branch_on
op_notif = branch_on is_false

flip_branch : List Bool → Exec (Unit {0})
flip_branch [] e = err invalid_stack_state e
flip_branch (condition ∷ outer) e = ok tt (
    if not condition
    then record e { control_stack = not condition ∷ outer }
    else record e { control_stack = not condition ∷ outer; skip_depth = 1 })

unfoldable pub op_else : Exec (Unit {0})
unfolding flip_branch
op_else e =
    if ltb 0 e.skip_depth
    then ok tt (if e.skip_depth == 1 then record e { skip_depth = 0 } else e)
    else flip_branch e.control_stack e

unfoldable pub op_endif : Exec (Unit {0})
op_endif e =
    if ltb 0 e.skip_depth
    then ok tt (record e { skip_depth = e.skip_depth - 1 })
    else elim e.control_stack [
      | [] ↦ err invalid_stack_state e
      | condition ∷ outer ↦ ok tt (record e { control_stack = outer })
    ]

-- The arm of `execute` for an instruction that is skipped.
unfoldable pub skip_opcode : Opcode → Engine → Engine
skip_opcode Opcode.op_if e = record e { skip_depth = e.skip_depth + 1 }
skip_opcode Opcode.op_not_if e = record e { skip_depth = e.skip_depth + 1 }
skip_opcode Opcode.op_else e = if e.skip_depth == 1 then record e { skip_depth = 0 } else e
skip_opcode Opcode.op_end_if e = record e { skip_depth = e.skip_depth - 1 }
skip_opcode _ e = e
