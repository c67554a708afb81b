-- ===== src/Script/Ops/Stack.antt =====
-- The stack words. A `Vec` index `len - n - 1` is the n-th value from the top.
use rusty_coin.Common.{ℕ, none, some, [], ◌∷◌, get_elem?, remove_at}
use rusty_coin.Common.Words.{Bytes}
use rusty_coin.Script.Engine.{
  Exec, ok, err, stack_underflow, pure, ◌>>=◌, ◌>>◌, push_data, pop_data, as_usize,
}

unfoldable pub op_dup : Exec (Unit {0})
unfolding push_data pop_data
op_dup = do a ← pop_data; push_data a; push_data a

unfoldable pub op_drop : Exec (Unit {0})
unfolding push_data pop_data
op_drop = do x ← pop_data; pure tt

unfoldable pub op_nip : Exec (Unit {0})
unfolding push_data pop_data
op_nip = do x2 ← pop_data; x1 ← pop_data; push_data x2

unfoldable pub op_over : Exec (Unit {0})
unfolding push_data pop_data
op_over = do x2 ← pop_data; x1 ← pop_data; push_data x1; push_data x2; push_data x1

unfoldable pub op_rot : Exec (Unit {0})
unfolding push_data pop_data
op_rot = do x3 ← pop_data; x2 ← pop_data; x1 ← pop_data; push_data x2; push_data x3; push_data x1

unfoldable pub op_swap : Exec (Unit {0})
unfolding push_data pop_data
op_swap = do x2 ← pop_data; x1 ← pop_data; push_data x2; push_data x1

unfoldable pub op_tuck : Exec (Unit {0})
unfolding push_data pop_data
op_tuck = do x2 ← pop_data; x1 ← pop_data; push_data x2; push_data x1; push_data x2

unfoldable pub op_2drop : Exec (Unit {0})
unfolding push_data pop_data
op_2drop = do x2 ← pop_data; x1 ← pop_data; pure tt

unfoldable pub op_2dup : Exec (Unit {0})
unfolding push_data pop_data
op_2dup = do x2 ← pop_data; x1 ← pop_data; push_data x1; push_data x2; push_data x1; push_data x2

unfoldable pub op_3dup : Exec (Unit {0})
unfolding push_data pop_data
op_3dup = do
  x3 ← pop_data
  x2 ← pop_data
  x1 ← pop_data
  push_data x1
  push_data x2
  push_data x3
  push_data x1
  push_data x2
  push_data x3

unfoldable pub op_2over : Exec (Unit {0})
unfolding push_data pop_data
op_2over = do
  x4 ← pop_data
  x3 ← pop_data
  x2 ← pop_data
  x1 ← pop_data
  push_data x1
  push_data x2
  push_data x3
  push_data x4
  push_data x1
  push_data x2

unfoldable pub op_2rot : Exec (Unit {0})
unfolding push_data pop_data
op_2rot = do
  x6 ← pop_data
  x5 ← pop_data
  x4 ← pop_data
  x3 ← pop_data
  x2 ← pop_data
  x1 ← pop_data
  push_data x3
  push_data x4
  push_data x5
  push_data x6
  push_data x1
  push_data x2

unfoldable pub op_2swap : Exec (Unit {0})
unfolding push_data pop_data
op_2swap = do
  x4 ← pop_data
  x3 ← pop_data
  x2 ← pop_data
  x1 ← pop_data
  push_data x3
  push_data x4
  push_data x1
  push_data x2

-- The n-th value from the top, where the stack is deep enough.
unfoldable pub peek : ℕ → Exec Bytes
peek n e = elim (get_elem? e.stack n) [ some v ↦ ok v e | none ↦ err stack_underflow e ]

-- `Vec::remove`
unfoldable pub delete_at : ℕ → Exec (Unit {0})
delete_at n e = ok tt (record e { stack = remove_at n e.stack })

unfoldable pub op_pick : Exec (Unit {0})
unfolding push_data pop_data as_usize peek
op_pick = do top ← pop_data; n ← as_usize top; value ← peek n; push_data value

unfoldable pub op_roll : Exec (Unit {0})
unfolding push_data pop_data as_usize peek delete_at
op_roll = do top ← pop_data; n ← as_usize top; value ← peek n; delete_at n; push_data value

unfoldable pub op_toaltstack : Exec (Unit {0})
unfolding pop_data
op_toaltstack = do value ← pop_data; λ e. ok tt (record e { alt_stack = value ∷ e.alt_stack })

unfoldable pub op_fromaltstack : Exec (Unit {0})
op_fromaltstack e = elim e.alt_stack [
  | [] ↦ err stack_underflow e
  | value ∷ rest ↦ ok tt (record e { alt_stack = rest; stack = value ∷ e.stack })
]
