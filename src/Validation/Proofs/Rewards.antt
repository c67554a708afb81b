-- ===== src/Validation/Proofs/Rewards.antt =====
-- What an accepted block creates, and its root.
use rusty_coin.Common.{ℕ, ◌+◌, ◌-◌, ◌%◌, ◌<◌, ◌≤◌, ◌≡◌, arith, true, false, not, List, [], ◌∷◌, All}
use rusty_coin.Common.Result.{ok, >>=-eq-ok}
use rusty_coin.Common.Words.{u32_mod, u64_mod}
use rusty_coin.Types.Tx.{Hash}
use rusty_coin.Types.Transaction.{Transaction, get_inputs, get_outputs}
use rusty_coin.Types.Block.{Block, txid}
use rusty_coin.Utxo.Proofs.Validity.{output_value}
use rusty_coin.Validation.Context.{Checked, ValidationContext, require->>=, duplicate_transaction}
use rusty_coin.Validation.Inputs.{validate_transaction}
use rusty_coin.Validation.Outputs.{sum_outputs}
use rusty_coin.Validation.Header.{validate_block_header}
use rusty_coin.Validation.Structure.{null_outpoint}
use rusty_coin.Validation.Transactions.{Spending, check_each, validate_transactions}
use rusty_coin.Validation.Fees.{
  sum_mature_inputs, transaction_fee, sum_fees, total_fees, check_reward,
}
use rusty_coin.Validation.Votes.{seen_hash}
use rusty_coin.Validation.Block.{
  check_block_size, check_coinbase_and_root, check_rewards, check_votes_and_state, check_difficulty,
  validate_block_comprehensive,
}
use rusty_coin.Validation.Proofs.Sums.{
  spent_value, sum_outputs-eq-ok, sum_outputs-lt, sum_mature_inputs-eq-ok,
  wrapping_sum-output_value,
}
use rusty_coin.Validation.Proofs.Spending.{IsSpendable}
use rusty_coin.Validation.Proofs.Accepted.{
  IsBalanced, nothing_spent, validate_transactions-eq-ok, check_each-eq-ok, account-eq-ok,
}
use rusty_coin.Validation.Proofs.Coinbase.{
  validate_transaction_structure-eq-ok, validate_transactions-null_outpoint,
}

-- The value of all outputs of these transactions, and of all outputs that they spend.
unfoldable pub created_value : List Transaction → ℕ
created_value [] = 0
created_value (tx ∷ txs) = output_value (get_outputs tx) + created_value txs

unfoldable pub spent_value_in : ValidationContext → List Transaction → ℕ
spent_value_in c [] = 0
spent_value_in c (tx ∷ txs) = spent_value c (get_inputs tx) + spent_value_in c txs

-- The transactions after the coinbase transaction.
abbrev pub after_coinbase : List Transaction → List Transaction
after_coinbase [] = []
after_coinbase (tx ∷ txs) = txs

-- A difference that wraps around is at most the difference.
difference :
    (i o fee : ℕ) {v w : ℕ}
    → o ≤ i
    → o < u64_mod
    → ◌≡◌ {A = Checked ℕ} (ok ((i + (u64_mod - o)) % u64_mod)) (ok fee)
    → i ≡ v
    → o ≡ w
    → fee + w ≤ v
difference i o fee le lt h p q =
    let e : (i + (u64_mod - o)) % u64_mod ≡ fee = ground arith in omega arith

module _ (c : ValidationContext) where
  transaction_fee-eq-ok :
      (height current_time : ℕ) (tx : Transaction) (fee : ℕ)
      → IsBalanced c tx
      → transaction_fee c height current_time tx ≡ ok fee
      → fee + output_value (get_outputs tx) ≤ spent_value c (get_inputs tx)
  unfolding transaction_fee
  transaction_fee-eq-ok height current_time tx fee b h =
      let (_, _, h1) = >>=-eq-ok (validate_transaction c tx (height % u32_mod) current_time) _ h in
      let (i, e, h2) = >>=-eq-ok (sum_mature_inputs c height 0 (get_inputs tx)) _ h1 in
      let (o, e', h3) = >>=-eq-ok (sum_outputs 0 (get_outputs tx)) _ h2 in
      let b' : o < u64_mod = sum_outputs-lt 0 (get_outputs tx) o (omega arith) e' in
      let i' : i ≡ 0 + spent_value c (get_inputs tx) =
        sum_mature_inputs-eq-ok c height 0 (get_inputs tx) i e in
      let o' : o ≡ 0 + output_value (get_outputs tx) = sum_outputs-eq-ok 0 (get_outputs tx) o e' in
      difference i o fee (omega arith) b' h3 (omega arith) (omega arith)

  sum_fees-eq-ok :
      (height current_time : ℕ) (txids : List Hash) (total : ℕ) (txs : List Transaction) (n : ℕ)
      → All (IsBalanced c) txs
      → sum_fees c height current_time txids total txs ≡ ok n
      → n + created_value txs ≤ total + spent_value_in c txs
  unfolding sum_fees created_value spent_value_in
  sum_fees-eq-ok height current_time txids total [] n b h = ground arith
  sum_fees-eq-ok height current_time txids total (tx ∷ txs) n b h =
      let (_, h1) = require->>= (not (seen_hash (txid c.enc tx) txids)) duplicate_transaction _ h in
      let (fee, e, h2) = >>=-eq-ok (transaction_fee c height current_time tx) _ h1 in
      ground (
        arith,
        h2,
        transaction_fee-eq-ok height current_time tx fee b.0 e,
        sum_fees-eq-ok height current_time (txid c.enc tx ∷ txids) (total + fee) txs n b.1,
      )

  All-IsBalanced :
      (height current_time : ℕ) (s : Spending) (txs : List Transaction)
      → check_each c height current_time true s txs ≡ ok tt
      → All (IsBalanced c) txs
  All-IsBalanced height current_time s [] h = tt
  All-IsBalanced height current_time s (tx ∷ txs) h =
      let (s', b, _, e, h') = check_each-eq-ok c height current_time true s tx txs h in
      let (_, _, _, q) = account-eq-ok c height current_time s tx s' e in
      (ground (arith, b, q), All-IsBalanced height current_time s' txs h')

  -- The fees cover what is created beside the coinbase outputs, and these are within the reward.
  rewards-eq-ok :
      (height current_time fees : ℕ) (txs : List Transaction)
      → validate_transactions c txs height current_time ≡ ok tt
      → total_fees c height current_time txs ≡ ok fees
      → check_reward c fees txs ≡ ok tt
      → created_value txs ≤ c.params.block_reward + spent_value_in c (after_coinbase txs)
  unfolding created_value total_fees check_reward
  rewards-eq-ok height current_time fees [] h f r = omega arith
  rewards-eq-ok height current_time fees (tx ∷ txs) h f r =
      let (_, e) = validate_transactions-eq-ok c height current_time (tx ∷ txs) h in
      let (s', _, v, _, h') = check_each-eq-ok c height current_time false nothing_spent tx txs e in
      let (_, _, b, _) = validate_transaction_structure-eq-ok c tx v in
      ground (
        arith,
        wrapping_sum-output_value (get_outputs tx),
        sum_fees-eq-ok height current_time (txid c.enc tx ∷ []) 0 txs fees
            (All-IsBalanced height current_time s' txs h') f,
      )

  -- The parts of an accepted block's validation.
  pub validate_block_comprehensive-eq-ok :
      (block prev_block : Block) (blocks : List Block) (current_time : ℕ)
      → validate_block_comprehensive c block (prev_block ∷ blocks) current_time ≡ ok tt
      → (validate_block_header c block.header prev_block current_time ≡ ok tt)
        × (validate_transactions c block.transactions block.header.height current_time ≡ ok tt)
        × (check_coinbase_and_root c block ≡ ok tt)
        × (check_rewards c block current_time ≡ ok tt)
        × (check_votes_and_state c block ≡ ok tt)
        × (check_difficulty block prev_block (prev_block ∷ blocks) ≡ ok tt)
  unfolding validate_block_comprehensive
  validate_block_comprehensive-eq-ok block prev_block blocks current_time h =
      let (_, e1, h1) =
        >>=-eq-ok (validate_block_header c block.header prev_block current_time) _ h in
      let (_, _, h2) = >>=-eq-ok (check_block_size c block) _ h1 in
      let (_, e3, h3) =
        >>=-eq-ok (validate_transactions c block.transactions block.header.height current_time) _
          h2 in
      let (_, e4, h4) = >>=-eq-ok (check_coinbase_and_root c block) _ h3 in
      let (_, e5, h5) = >>=-eq-ok (check_rewards c block current_time) _ h4 in
      let (_, e6, h6) = >>=-eq-ok (check_votes_and_state c block) _ h5 in (e1, e3, e4, e5, e6, h6)

  -- The outputs of an accepted block, those of its coinbase transaction included, are worth at most
  -- the block reward and what the other transactions spend.
  pub validate_block_comprehensive-created_value :
      (block : Block) (previous_blocks : List Block) (current_time : ℕ)
      → validate_block_comprehensive c block previous_blocks current_time ≡ ok tt
      → created_value block.transactions
        ≤ c.params.block_reward + spent_value_in c (after_coinbase block.transactions)
  unfolding check_rewards validate_block_comprehensive
  validate_block_comprehensive-created_value block [] current_time h = ground arith
  validate_block_comprehensive-created_value block (prev_block ∷ blocks) current_time h =
      let (_, e, _, r, _, _) =
        validate_block_comprehensive-eq-ok block prev_block blocks current_time h in
      let (fees, f, r') =
        >>=-eq-ok (total_fees c block.header.height current_time block.transactions) _ r in
      rewards-eq-ok block.header.height current_time fees block.transactions e f r'

  -- An accepted block needs the set to have the outpoint that its coinbase input must name.
  pub validate_block_comprehensive-null_outpoint :
      (block : Block) (previous_blocks : List Block) (current_time : ℕ)
      → validate_block_comprehensive c block previous_blocks current_time ≡ ok tt
      → IsSpendable c block.header.height null_outpoint
  unfolding validate_block_comprehensive
  validate_block_comprehensive-null_outpoint block [] current_time h = ground arith
  validate_block_comprehensive-null_outpoint block (prev_block ∷ blocks) current_time h =
      let (_, e, _, _, _, _) =
        validate_block_comprehensive-eq-ok block prev_block blocks current_time h in
      validate_transactions-null_outpoint c block.transactions block.header.height current_time e
