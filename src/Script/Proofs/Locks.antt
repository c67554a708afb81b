-- ===== src/Script/Proofs/Locks.antt =====
-- When OP_CHECKLOCKTIMEVERIFY lets a script go on.
use rusty_coin.Common.{◌⊎◌, ℕ, ◌*◌, ◌%◌, ◌≤◌, ◌<◌, ◌≡◌, ◌≢◌, ◌↔◌, arith, List, ◌∷◌, length}
use rusty_coin.Common.Words.{Bytes, from_le_bytes, u64_mod}
use rusty_coin.Types.Transaction.{get_lock_time}
use rusty_coin.Script.Context.{Context}
use rusty_coin.Script.Ops.Locktime.{op_checklocktimeverify}
use rusty_coin.Script.Engine.{Engine, ok}

module _ (c : Context) where
  -- What the code asks of the lock time on the stack: the transaction has a lock time, which it does
  -- not exceed, and the height has reached it, or, if it is a timestamp, sixty times the height has,
  -- which stands in for the time of a block.
  pub record IsMet (lock_time : ℕ) : Type 0 where
    pub is_set : get_lock_time c.tx ≢ 0
    pub covered : lock_time ≤ get_lock_time c.tx
    pub height : (500000000 ≤ lock_time) ⊎ (lock_time ≤ c.current_block_height)
    pub time : (lock_time < 500000000) ⊎ (lock_time ≤ c.current_block_height * 60 % u64_mod)

  -- With a value of at most four bytes on top, OP_CHECKLOCKTIMEVERIFY succeeds, and takes that value
  -- away, exactly when the transaction's lock time is not zero and at least the value, and the value
  -- is at most the height, or, from 500,000,000 on, at most sixty times the height. The time of
  -- a block has no part in it.
  pub op_checklocktimeverify_iff :
      (bytes : Bytes) (rest : List Bytes) (e : Engine)
      → e.stack ≡ bytes ∷ rest
      → length bytes ≤ 4
      → (op_checklocktimeverify c e ≡ ok tt (record e { stack = rest }))
        ↔ IsMet (from_le_bytes bytes)
  unfolding op_checklocktimeverify
  op_checklocktimeverify_iff bytes rest e s l = (
    λ h. record {
      is_set = ground arith;
      covered = ground arith;
      height = ground arith;
      time = ground arith;
    },
    λ m. ground (arith, m.height, m.time),
  )
