-- ===== src/Validation/Locktime.antt =====
-- The lock time and the sequence numbers (rusty-consensus/src/validation.rs).
use rusty_coin.Common.{ℕ, Bool, false, not, ◌||◌, List, [], ◌∷◌, leb, ltb, ◌==◌, if◌then◌else◌}
use rusty_coin.Common.Result.{ok}
use rusty_coin.Types.Tx.{TxInput}
use rusty_coin.Types.Transaction.{Transaction, get_inputs, get_lock_time, is_coinbase}
use rusty_coin.Script.Engine.{locktime_threshold}
use rusty_coin.Validation.Context.{Checked, require, invalid_proof, transaction_locktime_not_met}

-- `inputs.any(|input| input.sequence < 0xfffffffe)`
unfoldable pub is_locktime_enabled : List TxInput → Bool
is_locktime_enabled [] = false
is_locktime_enabled (input ∷ inputs) = ltb input.sequence 0xfffffffe || is_locktime_enabled inputs

-- A lock time is a height below the threshold, and a time from it on.
unfoldable pub lock_time_reached : ℕ → ℕ → ℕ → Bool
lock_time_reached lock_time height time =
    if ltb lock_time locktime_threshold then leb lock_time height else leb lock_time time

-- The last loop, on relative lock times, computes and checks nothing.
unfoldable pub validate_locktime_and_sequence : Transaction → ℕ → ℕ → Checked (Unit {0})
unfolding is_locktime_enabled lock_time_reached
validate_locktime_and_sequence tx current_height median_time_past =
    if is_coinbase tx || not (is_locktime_enabled (get_inputs tx)) || get_lock_time tx == 0
    then ok tt
    else require (lock_time_reached (get_lock_time tx) current_height median_time_past)
        transaction_locktime_not_met

-- The lock time check at the end of the loop of `validate_transactions`.
unfoldable pub check_lock_time : Transaction → ℕ → ℕ → Checked (Unit {0})
unfolding lock_time_reached
check_lock_time tx height current_time =
    if get_lock_time tx == 0
    then ok tt
    else if ltb (get_lock_time tx) locktime_threshold
    then require (leb (get_lock_time tx) height)
        (invalid_proof "Invalid lock time: block height not reached")
    else require (leb (get_lock_time tx) current_time)
        (invalid_proof "Invalid lock time: timestamp not reached")
