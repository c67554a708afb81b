-- ===== src/Validation/Proofs/Accepted.antt =====
-- What the transactions of an accepted block spend and create.
use rusty_coin.Common.{
  ℕ, ◌+◌, ◌≤◌, ◌≡◌, ap, arith, Bool, true, false, not, ◌&&◌, ◌⊎◌, List, [], ◌∷◌, All, All-implies,
}
use rusty_coin.Common.Result.{ok, >>=-eq-ok}
use rusty_coin.Types.Tx.{OutPoint}
use rusty_coin.Types.Transaction.{Transaction, get_inputs, get_outputs, is_coinbase}
use rusty_coin.Script.Validate.{is_empty}
use rusty_coin.Utxo.Proofs.Validity.{output_value}
use rusty_coin.Validation.Context.{
  ValidationContext, require->>=, invalid_coinbase_input, empty_transaction,
  no_coinbase_transaction,
}
use rusty_coin.Validation.Outputs.{sum_outputs}
use rusty_coin.Validation.Payload.{check_payload}
use rusty_coin.Validation.Structure.{validate_transaction_structure}
use rusty_coin.Validation.Transactions.{
  Spending, spend_inputs, add_fee, settle, account, check_each, validate_transactions,
  starts_with_coinbase,
}
use rusty_coin.Validation.Proofs.Sums.{spent_value, sum_outputs-eq-ok}
use rusty_coin.Validation.Proofs.Spending.{
  IsSpendable, times_listed, times_spent, times_listed-spend_inputs, total-spend_inputs,
  All-spend_inputs,
}

-- How often the inputs of these transactions name an outpoint.
unfoldable pub times_spent_in : OutPoint → List Transaction → ℕ
times_spent_in p [] = 0
times_spent_in p (tx ∷ txs) = times_spent p (get_inputs tx) + times_spent_in p txs

-- Each input of the transaction names an output that may be spent at this height.
abbrev pub SpendsSpendable : ValidationContext → ℕ → Transaction → Type 0
SpendsSpendable c height tx =
    All (λ input. IsSpendable c height input.previous_output) (get_inputs tx)

-- The transaction does not create more than it spends.
abbrev pub IsBalanced : ValidationContext → Transaction → Type 0
IsBalanced c tx = output_value (get_outputs tx) ≤ spent_value c (get_inputs tx)

-- What the loop over the transactions starts from.
abbrev pub nothing_spent : Spending
nothing_spent = record { spent_outputs = []; total = 0 }

module _ (c : ValidationContext) (height current_time : ℕ) where
  add_fee-eq-ok :
      (tx : Transaction) (total_input total_output fees : ℕ) {n : ℕ}
      → add_fee c tx total_input total_output fees ≡ ok n
      → total_output ≤ total_input
  unfolding add_fee
  add_fee-eq-ok tx total_input total_output fees h = ground arith

  settle-eq-ok :
      (tx : Transaction) (fees total_output : ℕ) (inputs s' : Spending)
      → settle c height current_time tx fees total_output inputs ≡ ok s'
      → (s'.spent_outputs ≡ inputs.spent_outputs)
        × ((is_coinbase tx ≡ true) ⊎ (total_output ≤ inputs.total))
  unfolding settle add_fee
  settle-eq-ok tx fees total_output inputs s' h = ground arith

  pub account-eq-ok :
      (s : Spending) (tx : Transaction) (s' : Spending)
      → account c height current_time s tx ≡ ok s'
      → (inputs : Spending) × (spend_inputs c height s.spent_outputs 0 (get_inputs tx) ≡ ok inputs)
        × (s'.spent_outputs ≡ inputs.spent_outputs)
        × ((is_coinbase tx ≡ true) ⊎ IsBalanced c tx)
  unfolding account
  account-eq-ok s tx s' h =
      let (inputs, e, h1) =
        >>=-eq-ok (spend_inputs c height s.spent_outputs 0 (get_inputs tx)) _ h in
      let (out, e', h2) = >>=-eq-ok (sum_outputs 0 (get_outputs tx)) _ h1 in
      let (p, q) = settle-eq-ok tx s.total out inputs s' h2 in
      (
        inputs,
        e,
        p,
        ground (
          arith,
          total-spend_inputs c height s.spent_outputs 0 (get_inputs tx) inputs e,
          sum_outputs-eq-ok 0 (get_outputs tx) out e',
        ),
      )

  pub check_each-eq-ok :
      (later : Bool) (s : Spending) (tx : Transaction) (txs : List Transaction)
      → check_each c height current_time later s (tx ∷ txs) ≡ ok tt
      → (s' : Spending) × (not (later && is_coinbase tx) ≡ true)
        × (validate_transaction_structure c tx ≡ ok tt)
        × (account c height current_time s tx ≡ ok s')
        × (check_each c height current_time true s' txs ≡ ok tt)
  unfolding check_each
  check_each-eq-ok later s tx txs h =
      let (b, h1) = require->>= (not (later && is_coinbase tx)) invalid_coinbase_input _ h in
      let (_, e, h2) = >>=-eq-ok (validate_transaction_structure c tx) _ h1 in
      let (_, e', h3) = >>=-eq-ok (check_payload c height tx) _ h2 in
      let (s', e'', h4) = >>=-eq-ok (account c height current_time s tx) _ h3 in (s', b, e, e'', h4)

  times_spent_in-check_each :
      (later : Bool) (s : Spending) (txs : List Transaction) (p : OutPoint)
      → check_each c height current_time later s txs ≡ ok tt
      → times_listed p s.spent_outputs ≤ 1
      → times_spent_in p txs + times_listed p s.spent_outputs ≤ 1
  unfolding times_spent_in
  times_spent_in-check_each later s [] p h b = omega arith
  times_spent_in-check_each later s (tx ∷ txs) p h b =
      let (s', _, _, e, h') = check_each-eq-ok later s tx txs h in
      let (inputs, e', q, _) = account-eq-ok s tx s' e in
      let (n, b') =
        times_listed-spend_inputs c height p s.spent_outputs 0 (get_inputs tx) inputs e' b in
      let q' : times_listed p s'.spent_outputs ≡ times_listed p inputs.spent_outputs =
        ap (times_listed p) q in
      let b'' : times_listed p s'.spent_outputs ≤ 1 = omega arith in
      omega (arith, times_spent_in-check_each true s' txs p h' b'')

  pub All-check_each :
      (later : Bool) (s : Spending) (txs : List Transaction)
      → check_each c height current_time later s txs ≡ ok tt
      → All
          (λ tx.
            SpendsSpendable c height tx
            × (validate_transaction_structure c tx ≡ ok tt)
            × ((is_coinbase tx ≡ true) ⊎ IsBalanced c tx))
          txs
  All-check_each later s [] h = tt
  All-check_each later s (tx ∷ txs) h =
      let (s', _, v, e, h') = check_each-eq-ok later s tx txs h in
      let (inputs, e', _, q) = account-eq-ok s tx s' e in
      (
        (All-spend_inputs c height s.spent_outputs 0 (get_inputs tx) inputs e', v, q),
        All-check_each true s' txs h',
      )

  pub validate_transactions-eq-ok :
      (txs : List Transaction)
      → validate_transactions c txs height current_time ≡ ok tt
      → (starts_with_coinbase txs ≡ true)
        × (check_each c height current_time false nothing_spent txs ≡ ok tt)
  unfolding validate_transactions
  validate_transactions-eq-ok txs h =
      let (_, h1) = require->>= (not (is_empty txs)) empty_transaction _ h in
      require->>= (starts_with_coinbase txs) no_coinbase_transaction _ h1

  -- In an accepted list of transactions no outpoint is spent more than once, and every input, those
  -- of the coinbase transaction included, names an output that the set has and that may be spent at
  -- this height.
  pub validate_transactions-times_spent :
      (txs : List Transaction)
      → validate_transactions c txs height current_time ≡ ok tt
      → ((p : OutPoint) → times_spent_in p txs ≤ 1) × All (SpendsSpendable c height) txs
  unfolding times_listed
  validate_transactions-times_spent txs h =
      let (_, e) = validate_transactions-eq-ok txs h in
      (
        λ p. omega (arith, times_spent_in-check_each false nothing_spent txs p e (omega arith)),
        All-implies (λ tx facts. facts.0) txs (All-check_each false nothing_spent txs e),
      )
