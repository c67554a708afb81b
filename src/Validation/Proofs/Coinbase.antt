-- ===== src/Validation/Proofs/Coinbase.antt =====
-- The coinbase transaction of an accepted block, and the structure of every transaction.
use rusty_coin.Common.{
  ℕ, ◌+◌, ◌<◌, ◌≤◌, ◌≡◌, ◌⊎◌, refl, arith, true, false, not, ◌||◌, ◌&&◌, some, List, [], ◌∷◌, inl,
  inr, All, if◌then◌else◌,
}
use mathlib.Core.Path.{subst}
use rusty_coin.Common.Result.{ok, >>=-eq-ok}
use rusty_coin.Common.Words.{u64_mod}
use rusty_coin.Types.Tx.{TxInput, OutPoint-discrete}
use rusty_coin.Types.Transaction.{Transaction, get_inputs, get_outputs, get_lock_time, is_coinbase}
use rusty_coin.Script.Validate.{is_empty}
use rusty_coin.Utxo.Proofs.Validity.{output_value}
use rusty_coin.Validation.Context.{
  ValidationContext, empty_transaction, require->>=, if-eq-ok, no_outputs,
}
use rusty_coin.Validation.Inputs.{
  checked_size, validate_transaction, check_coinbase_inputs, check_spending,
}
use rusty_coin.Validation.Outputs.{sum_valid_outputs}
use rusty_coin.Validation.Structure.{
  null_outpoint, is_null, check_null_input, verify_inputs, sum_input_values, check_balance,
  validate_transaction_structure,
}
use rusty_coin.Validation.Transactions.{validate_transactions, starts_with_coinbase}
use rusty_coin.Validation.Proofs.Sums.{spent_value, sum_valid_outputs-eq-ok, sum_input_values-eq-ok}
use rusty_coin.Validation.Proofs.Spending.{IsSpendable}
use rusty_coin.Validation.Proofs.Accepted.{
  validate_transactions-eq-ok, All-check_each, nothing_spent,
}

-- What the checks of the structure say of a transaction of this size and output value.
check_null_input-eq-ok :
    (inputs : List TxInput)
    → check_null_input inputs ≡ ok tt
    → (input : TxInput) × (inputs ≡ input ∷ []) × (input.previous_output ≡ null_outpoint)
unfolding check_null_input is_null
check_null_input-eq-ok [] h = ground arith
check_null_input-eq-ok (input ∷ []) h =
    elim (OutPoint-discrete input.previous_output null_outpoint) [
      | yes e ↦ (input, refl, e)
      | no e ↦ ground (arith, e)
    ]
check_null_input-eq-ok (input ∷ other ∷ inputs) h = ground arith

module _ (c : ValidationContext) where
  checked_size-eq-ok : (tx : Transaction) {n : ℕ} → checked_size c tx ≡ ok n → c.tx_size tx ≡ some n
  unfolding checked_size
  checked_size-eq-ok tx h = ground arith

  check_balance-eq-ok :
      (tx : Transaction) (size total_output : ℕ)
      → check_balance c tx size total_output ≡ ok tt
      → total_output + size ≤ spent_value c (get_inputs tx)
  unfolding check_balance
  check_balance-eq-ok tx size total_output h =
      let (n, e, h1) = >>=-eq-ok (sum_input_values c (get_lock_time tx) 0 (get_inputs tx)) _ h in
      ground (arith, sum_input_values-eq-ok c (get_lock_time tx) 0 (get_inputs tx) n e)

  -- What a transaction's structure says: its outputs' values fit in a word; a coinbase transaction
  -- has one input, which names no output, and any other one pays for its size.
  pub validate_transaction_structure-eq-ok :
      (tx : Transaction)
      → validate_transaction_structure c tx ≡ ok tt
      → (size : ℕ) × (c.tx_size tx ≡ some size)
        × (output_value (get_outputs tx) < u64_mod)
        × (((is_coinbase tx ≡ true) × (check_null_input (get_inputs tx) ≡ ok tt))
            ⊎ ((is_coinbase tx ≡ false)
                × (output_value (get_outputs tx) + size ≤ spent_value c (get_inputs tx))))
  unfolding validate_transaction_structure
  validate_transaction_structure-eq-ok tx h =
      let (size, e, h1) = >>=-eq-ok (checked_size c tx) _ h in
      let (_, h2) =
        require->>= (is_coinbase tx || not (is_empty (get_inputs tx))) empty_transaction _ h1 in
      let (_, _, h3) =
        >>=-eq-ok (if is_coinbase tx then ok tt else verify_inputs c tx 0 0 (get_inputs tx)) _ h2 in
      let (_, h4) = require->>= (not (is_empty (get_outputs tx))) no_outputs _ h3 in
      let (n, e', h5) = >>=-eq-ok (sum_valid_outputs c.params 0 0 (get_outputs tx)) _ h4 in
      let (s, b) = sum_valid_outputs-eq-ok c.params 0 0 (get_outputs tx) n (omega arith) e' in
      (
        size,
        checked_size-eq-ok tx e,
        omega arith,
        elim (if-eq-ok (is_coinbase tx) (check_null_input (get_inputs tx))
            (check_balance c tx size n) h5) [
              | inl (k, r) ↦ inl (k, r)
              | inr (k, r) ↦ let q = check_balance-eq-ok tx size n r in inr (k, omega arith)
            ],
      )

  null_input-IsSpendable :
      (height : ℕ) (inputs : List TxInput)
      → check_null_input inputs ≡ ok tt
      → All (λ input. IsSpendable c height input.previous_output) inputs
      → IsSpendable c height null_outpoint
  null_input-IsSpendable height inputs h all =
      let (input, e, e') = check_null_input-eq-ok inputs h in
      subst (IsSpendable c height) e'
        (subst (All (λ input. IsSpendable c height input.previous_output)) e all).0

  -- A list of transactions that is accepted makes the set have the outpoint that a coinbase input
  -- must name, the one with a zero identifier and the highest index.
  pub validate_transactions-null_outpoint :
      (txs : List Transaction) (height current_time : ℕ)
      → validate_transactions c txs height current_time ≡ ok tt
      → IsSpendable c height null_outpoint
  unfolding starts_with_coinbase
  validate_transactions-null_outpoint [] height current_time h =
      ground (arith, validate_transactions-eq-ok c height current_time [] h)
  validate_transactions-null_outpoint (tx ∷ txs) height current_time h =
      let (b, e) = validate_transactions-eq-ok c height current_time (tx ∷ txs) h in
      let (all, v, _) = (All-check_each c height current_time false nothing_spent (tx ∷ txs) e).0 in
      let (_, _, _, q) = validate_transaction_structure-eq-ok tx v in
      elim q [
        | inl (k, r) ↦ null_input-IsSpendable height (get_inputs tx) r all
        | inr (k, r) ↦ ground (arith, b, k)
      ]

  -- A coinbase transaction that `validate_transaction` accepts has no input, and
  -- `validate_transaction_structure`, which wants one, rejects it.
  pub validate_transaction_structure-validate_transaction :
      (tx : Transaction) (current_height median_time_past : ℕ)
      → is_coinbase tx ≡ true
      → validate_transaction c tx current_height median_time_past ≡ ok tt
      → ¬ (validate_transaction_structure c tx ≡ ok tt)
  unfolding validate_transaction check_coinbase_inputs check_null_input
  validate_transaction_structure-validate_transaction tx current_height median_time_past k h s =
      let (_, _, _, q) = validate_transaction_structure-eq-ok tx s in
      let (_, h1) =
        require->>= (not (is_empty (get_inputs tx) && is_empty (get_outputs tx))) empty_transaction
          _ h in
      let (size, _, h2) = >>=-eq-ok (checked_size c tx) _ h1 in
      let (_, h3, _) =
        >>=-eq-ok
          (if is_coinbase tx
            then check_coinbase_inputs c tx
            else check_spending c tx size current_height median_time_past)
          _ h2 in
      ground (arith, k, q, h3)
