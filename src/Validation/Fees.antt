-- ===== src/Validation/Fees.antt =====
-- The loop of `validate_block_comprehensive` over the transactions, which sums up their fees, and
-- the reward (rusty-consensus/src/validation.rs).
use rusty_coin.Common.{ℕ, ◌+◌, ◌-◌, ◌%◌, not, List, [], ◌∷◌, leb}
use rusty_coin.Common.Result.{ok, ◌>>=◌, ◌>>◌}
use rusty_coin.Common.Words.{u32_mod, u64_mod}
use rusty_coin.Types.Tx.{Hash, TxInput, TxOutput}
use rusty_coin.Types.Transaction.{Transaction, get_inputs, get_outputs}
use rusty_coin.Types.Block.{txid}
use rusty_coin.Validation.Context.{
  Checked, ValidationContext, require, checked_add, coinbase_not_mature, invalid_proof,
  duplicate_transaction,
}
use rusty_coin.Validation.Inputs.{find_utxo, validate_transaction}
use rusty_coin.Validation.Outputs.{sum_outputs}
use rusty_coin.Validation.Transactions.{is_too_young}
use rusty_coin.Validation.Votes.{seen_hash}

-- `outputs.map(|o| o.value).sum::<u64>()`, which wraps around.
unfoldable pub wrapping_sum : List TxOutput → ℕ
wrapping_sum [] = 0
wrapping_sum (output ∷ outputs) = (output.value + wrapping_sum outputs) % u64_mod

module _ (c : ValidationContext) where
  -- The sum of the values of one transaction's inputs.
  unfoldable pub sum_mature_inputs : ℕ → ℕ → List TxInput → Checked ℕ
  unfolding is_too_young
  sum_mature_inputs height total [] = ok total
  sum_mature_inputs height total (input ∷ inputs) = do
    utxo ← find_utxo c input.previous_output
    require (not (is_too_young c utxo height)) coinbase_not_mature
    total' ← checked_add total utxo.output.value (invalid_proof "Input value too large")
    sum_mature_inputs height total' inputs

  -- The body of the loop for a transaction after the first: its fee, whose difference wraps around.
  unfoldable pub transaction_fee : ℕ → ℕ → Transaction → Checked ℕ
  unfolding validate_transaction sum_mature_inputs sum_outputs
  transaction_fee height current_time tx = do
    validate_transaction c tx (height % u32_mod) current_time
    total_input ← sum_mature_inputs height 0 (get_inputs tx)
    total_output ← sum_outputs 0 (get_outputs tx)
    ok ((total_input + (u64_mod - total_output)) % u64_mod)

  -- The loop from the second transaction on, after these identifiers.
  unfoldable pub sum_fees : ℕ → ℕ → List Hash → ℕ → List Transaction → Checked ℕ
  unfolding seen_hash transaction_fee
  sum_fees height current_time txids total [] = ok total
  sum_fees height current_time txids total (tx ∷ txs) = do
    require (not (seen_hash (txid c.enc tx) txids)) duplicate_transaction
    fee ← transaction_fee height current_time tx
    total' ← checked_add total fee (invalid_proof "Fee overflow")
    sum_fees height current_time (txid c.enc tx ∷ txids) total' txs

  -- The loop, whose first round only records the coinbase transaction's identifier.
  unfoldable pub total_fees : ℕ → ℕ → List Transaction → Checked ℕ
  unfolding sum_fees
  total_fees height current_time [] = ok 0
  total_fees height current_time (tx ∷ txs) =
      sum_fees height current_time (txid c.enc tx ∷ []) 0 txs

  -- The coinbase outputs are at most the reward and the fees.
  unfoldable pub check_reward : ℕ → List Transaction → Checked (Unit {0})
  unfolding wrapping_sum
  check_reward fees [] = ok tt
  check_reward fees (tx ∷ txs) =
      require (leb (wrapping_sum (get_outputs tx)) ((c.params.block_reward + fees) % u64_mod))
        (invalid_proof "Block reward invalid")
