-- ===== src/Script/Ops/Splice.antt =====
-- Words on the bytes of a value: equality, splicing and bitwise logic.
use rusty_coin.Common.{
  ℕ, ◌+◌, ◌-◌, ◌%◌, ◌==◌, ◌&&◌, leb, if◌then◌else◌, bit_and, bit_or, bit_xor, Bool, true, false,
  not, [], ◌∷◌, ◌++◌, map, length, take, drop, ite,
}
use rusty_coin.Common.Words.{Bytes, u64_mod, to_le_bytes}
use rusty_coin.Types.Tx.{hash_key}
use rusty_coin.Script.Engine.{
  Exec, invalid_stack_state, verification_failed, pure, guard, ◌>>=◌, ◌>>◌, push_data, pop_data,
  as_usize, is_false, assert,
}

-- TRUE and FALSE as the engine pushes them.
abbrev pub from_bool : Bool → Bytes
from_bool b = if b then 1 ∷ [] else []

unfoldable pub bytes_eq : Bytes → Bytes → Bool
bytes_eq a b = ite (hash_key.eq a b) true false

unfoldable pub op_equal : Exec (Unit {0})
unfolding push_data pop_data
op_equal = do b ← pop_data; a ← pop_data; push_data (from_bool (bytes_eq a b))

unfoldable pub op_verify : Exec (Unit {0})
unfolding pop_data
op_verify = do top ← pop_data; guard (not (is_false top)) verification_failed

unfoldable pub op_equal_verify : Exec (Unit {0})
unfolding op_equal op_verify
op_equal_verify = do op_equal; op_verify

unfoldable pub op_cat : Exec (Unit {0})
unfolding push_data pop_data
op_cat = do b ← pop_data; a ← pop_data; push_data (a ++ b)

-- `data[from..to]`, which panics unless `from <= to <= data.len()`.
unfoldable pub slice : Bytes → ℕ → ℕ → Exec Bytes
slice value from to = do
  assert (leb from to && leb to (length value))
  pure (take (to - from) (drop from value))

-- `offset + size` wraps in a release build.
unfoldable pub op_substr : Exec (Unit {0})
unfolding push_data pop_data as_usize slice
op_substr = do
  size_bytes ← pop_data
  size ← as_usize size_bytes
  offset_bytes ← pop_data
  offset ← as_usize offset_bytes
  value ← pop_data
  guard (leb ((offset + size) % u64_mod) (length value)) invalid_stack_state
  part ← slice value offset ((offset + size) % u64_mod)
  push_data part

unfoldable pub op_left : Exec (Unit {0})
unfolding push_data pop_data as_usize slice
op_left = do
  size_bytes ← pop_data
  size ← as_usize size_bytes
  value ← pop_data
  guard (leb size (length value)) invalid_stack_state
  part ← slice value 0 size
  push_data part

unfoldable pub op_right : Exec (Unit {0})
unfolding push_data pop_data as_usize slice
op_right = do
  size_bytes ← pop_data
  size ← as_usize size_bytes
  value ← pop_data
  guard (leb size (length value)) invalid_stack_state
  part ← slice value (length value - size) (length value)
  push_data part

unfoldable pub op_size : Exec (Unit {0})
unfolding push_data pop_data
op_size = do value ← pop_data; push_data value; push_data (to_le_bytes 8 (length value))

unfoldable pub op_invert : Exec (Unit {0})
unfolding push_data pop_data
op_invert = do value ← pop_data; push_data (map (λ b. 255 - b) value)

unfoldable pub zip_with : (ℕ → ℕ → ℕ) → Bytes → Bytes → Bytes
zip_with f [] bs = []
zip_with f (a ∷ as') [] = []
zip_with f (a ∷ as') (b ∷ bs) = f a b ∷ zip_with f as' bs

-- The shared body of `op_and`, `op_or` and `op_xor`.
unfoldable pub bitwise : (ℕ → ℕ → ℕ) → Exec (Unit {0})
unfolding push_data pop_data
bitwise f = do
  b ← pop_data
  a ← pop_data
  guard (length a == length b) invalid_stack_state
  push_data (zip_with f a b)

unfoldable pub op_and : Exec (Unit {0})
unfolding bitwise
op_and = bitwise bit_and

unfoldable pub op_or : Exec (Unit {0})
unfolding bitwise
op_or = bitwise bit_or

unfoldable pub op_xor : Exec (Unit {0})
unfolding bitwise
op_xor = bitwise bit_xor
