-- ===== src/Script/Ops/Locktime.antt =====
-- The lock time words. A relative lock is compared by its lower sixteen bits.
use rusty_coin.Common.{
  ℕ, ◌*◌, ◌%◌, ◌==◌, leb, ltb, if◌then◌else◌, Bool, not, Option, none, some, get_elem?, bit_and,
}
use rusty_coin.Common.Words.{u64_mod}
use rusty_coin.Types.Tx.{TxInput}
use rusty_coin.Types.Transaction.{get_inputs, get_lock_time}
use rusty_coin.Script.Context.{Context}
use rusty_coin.Script.Engine.{
  Exec, ok, err, verification_failed, pure, guard, ◌>>=◌, ◌>>◌, pop_data, as_u32,
  locktime_threshold,
}

-- Sixty seconds for a block, in wrapping `u64` arithmetic.
abbrev pub estimated_timestamp : ℕ → ℕ
estimated_timestamp height = height * 60 % u64_mod

-- Bit 31 and bit 22 of a sequence, and its lower half.
abbrev pub disable_flag : ℕ
disable_flag = 2147483648

abbrev pub seconds_flag : ℕ
seconds_flag = 4194304

abbrev pub has_flag : ℕ → ℕ → Bool
has_flag sequence flag = not (bit_and sequence flag == 0)

abbrev pub masked : ℕ → ℕ
masked sequence = bit_and sequence 65535

module _ (c : Context) where
  unfoldable pub op_checklocktimeverify : Exec (Unit {0})
  unfolding pop_data as_u32 get_lock_time
  op_checklocktimeverify = do
    lock_time_bytes ← pop_data
    lock_time ← as_u32 lock_time_bytes
    guard (not (get_lock_time c.tx == 0)) verification_failed
    guard (leb lock_time (get_lock_time c.tx)) verification_failed
    guard
        (if ltb lock_time locktime_threshold
          then leb lock_time c.current_block_height
          else leb lock_time (estimated_timestamp c.current_block_height))
        verification_failed

  -- The comparison that both readings of the type flag make once more.
  unfoldable pub check_sequence : ℕ → ℕ → Exec (Unit {0})
  check_sequence tx_input_sequence relative_sequence =
      if has_flag tx_input_sequence disable_flag
      then pure tt
      else if has_flag relative_sequence disable_flag
      then pure tt
      else do
        guard (leb (masked relative_sequence) (masked tx_input_sequence)) verification_failed
        if has_flag relative_sequence seconds_flag
            then guard (leb (masked relative_sequence) (masked tx_input_sequence))
                verification_failed
            else guard (leb (masked relative_sequence) (masked tx_input_sequence))
                verification_failed

  sequence_of : Option TxInput → Exec ℕ
  sequence_of none e = err verification_failed e
  sequence_of (some input) e = ok input.sequence e

  unfoldable pub op_checksequenceverify : Exec (Unit {0})
  unfolding pop_data as_u32 check_sequence sequence_of get_inputs
  op_checksequenceverify = do
    relative_sequence_bytes ← pop_data
    relative_sequence ← as_u32 relative_sequence_bytes
    tx_input_sequence ← sequence_of (get_elem? (get_inputs c.tx) c.input_index)
    check_sequence tx_input_sequence relative_sequence
