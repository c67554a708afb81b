-- ===== src/Script/Engine.antt =====
-- The state of `ScriptEngine`, its errors and its helpers (rusty-core/src/script/script_engine.rs).
-- An operation takes the engine and ends in an outcome: a value and the new engine, an error and
-- the engine as the failed operation left it, or a panic, which aborts the process. A `Vec` that is
-- used as a stack is a list with its top first.
use rusty_coin.Common.{
  ℕ, ◌+◌, ◌==◌, leb, ltb, Bool, true, false, List, [], ◌∷◌, length, take, drop, ◌≡◌, refl,
}
use rusty_coin.Common.Words.{Bytes, from_le_bytes}

pub data ScriptError : Type 0 where
  invalid_opcode stack_underflow stack_overflow invalid_stack_state script_too_large : ScriptError
  too_many_opcodes too_many_sig_ops too_many_operations verification_failed : ScriptError
  op_return not_implemented : ScriptError

pub record Engine : Type 0 where
  pub stack : List Bytes
  pub alt_stack : List Bytes
  pub opcode_count : ℕ
  pub sig_op_count : ℕ
  pub control_stack : List Bool
  pub skip_depth : ℕ

-- `ScriptEngine::new`
abbrev pub new_engine : Engine
new_engine = record {
  stack = [];
  alt_stack = [];
  opcode_count = 0;
  sig_op_count = 0;
  control_stack = [];
  skip_depth = 0;
}

-- The limits of rusty-core/src/constants.rs.
abbrev pub max_script_bytes : ℕ
max_script_bytes = 10000

abbrev pub max_opcode_count : ℕ
max_opcode_count = 200

abbrev pub max_stack_depth : ℕ
max_stack_depth = 100

abbrev pub max_sig_ops : ℕ
max_sig_ops = 20

abbrev pub locktime_threshold : ℕ
locktime_threshold = 500000000

pub data Outcome {ℓ} (A : Type ℓ) : Type ℓ where
  ok : A → Engine → Outcome A
  err : ScriptError → Engine → Outcome A
  panic : Outcome A

abbrev pub Exec {ℓ} : Type ℓ → Type ℓ
Exec A = Engine → Outcome A

module _ {ℓ} {A : Type ℓ} where
  abbrev pub pure : A → Exec A
  pure a e = ok a e

  abbrev pub fail : ScriptError → Exec A
  fail x e = err x e

  abbrev pub abort : Exec A
  abort e = panic

-- The `?` operator.
infixl 5 ◌>>=◌ ◌>>◌
abbrev pub ◌>>=◌ {ℓ κ} : {A : Type ℓ} {B : Type κ} → Exec A → (A → Exec B) → Exec B
◌>>=◌ m f e = elim (m e) [ ok a e' ↦ f a e' | err x e' ↦ err x e' | panic ↦ panic ]

abbrev pub ◌>>◌ {ℓ} : {B : Type ℓ} → Exec (Unit {0}) → Exec B → Exec B
m >> k = m >>= λ _. k

-- `if !condition { return Err(error); }`
abbrev pub guard : Bool → ScriptError → Exec (Unit {0})
guard true x e = ok tt e
guard false x e = err x e

-- A check of the language, which panics where it fails.
abbrev pub assert : Bool → Exec (Unit {0})
assert true e = ok tt e
assert false e = panic

unfoldable pub push_data : Bytes → Exec (Unit {0})
push_data v e = ok tt (record e { stack = v ∷ e.stack })

unfoldable pub pop_data : Exec Bytes
pop_data e = elim e.stack [
  | [] ↦ err stack_underflow e
  | v ∷ rest ↦ ok v (record e { stack = rest })
]

-- Empty, or a single zero byte.
unfoldable pub is_false : Bytes → Bool
is_false [] = true
is_false (b ∷ []) = b == 0
is_false (b ∷ b' ∷ bs) = false

-- `usize` is a 64-bit word.
unfoldable pub as_usize : Bytes → Exec ℕ
as_usize v = do guard (leb (length v) 8) invalid_stack_state; pure (from_le_bytes v)

unfoldable pub as_u32 : Bytes → Exec ℕ
as_u32 v = do guard (leb (length v) 4) invalid_stack_state; pure (from_le_bytes v)

-- `rest` is the script from the instruction pointer on; the pointer moves by what is read.
unfoldable pub read_bytes : Bytes → ℕ → Exec Bytes
read_bytes rest num_bytes = do
  guard (leb num_bytes (length rest)) script_too_large
  pure (take num_bytes rest)

-- The result is by how much the instruction pointer moves.
unfoldable pub push_data_n : Bytes → ℕ → Exec ℕ
unfolding read_bytes as_usize push_data
push_data_n rest len_bytes = do
  len_data ← read_bytes rest len_bytes
  len ← as_usize len_data
  value ← read_bytes (drop len_bytes rest) len
  push_data value
  pure (len_bytes + len)

unfoldable pub should_skip : Engine → Bool
should_skip e = ltb 0 e.skip_depth

-- A chain that succeeds has succeeded at its first step, and goes on from there.
pub bind_ok {ℓ κ} :
    {A : Type ℓ} {B : Type κ} (m : Exec A) (f : A → Exec B) (e : Engine) {b : B} {e' : Engine}
    → (m >>= f) e ≡ ok b e'
    → (a : A) × (middle : Engine) × (m e ≡ ok a middle) × (f a middle ≡ ok b e')
bind_ok {A} {B} m f e {b} {e'} h = go (m e) refl h
  where
    go :
        (o : Outcome A)
        → m e ≡ o
        → ◌≡◌ {A = Outcome B}
            (elim o [ ok a e'' ↦ f a e'' | err x e'' ↦ err x e'' | panic ↦ panic ])
            (ok b e')
        → (a : A) × (middle : Engine) × (m e ≡ ok a middle) × (f a middle ≡ ok b e')
    go (ok a middle) p q = (a, middle, p, q)
    go (err x middle) p q = cc
    go panic p q = cc
