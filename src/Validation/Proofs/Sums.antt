-- ===== src/Validation/Proofs/Sums.antt =====
-- What the loops of the validation sum up, without wrap-around.
use rusty_coin.Common.{inl, inr, ℕ, ◌+◌, ◌%◌, ◌<◌, ◌≡◌, refl, ap, arith, some, List, [], ◌∷◌}
use rusty_coin.Common.Result.{ok, err, >>=-eq-ok, Result-cases}
use rusty_coin.Common.Words.{u64_mod}
use rusty_coin.Types.Tx.{OutPoint, TxInput, TxOutput, Utxo}
use rusty_coin.Utxo.Proofs.Validity.{output_value}
use rusty_coin.Validation.Context.{
  Checked, ConsensusParams, ValidationContext, ok_or, missing_tx_input, ok_or-eq-ok,
}
use rusty_coin.Validation.Inputs.{find_utxo}
use rusty_coin.Validation.Outputs.{sum_outputs, sum_valid_outputs}
use rusty_coin.Validation.Structure.{sum_input_values}
use rusty_coin.Validation.Fees.{sum_mature_inputs, wrapping_sum}

-- The value of the output that an outpoint names, nothing where there is none.
abbrev pub found_value : Checked Utxo → ℕ
found_value (ok utxo) = utxo.output.value
found_value (err e) = 0

unfoldable pub value_at : ValidationContext → OutPoint → ℕ
value_at c outpoint = found_value (find_utxo c outpoint)

-- The value that the inputs spend.
unfoldable pub spent_value : ValidationContext → List TxInput → ℕ
spent_value c [] = 0
spent_value c (input ∷ inputs) = value_at c input.previous_output + spent_value c inputs

pub find_utxo-eq-ok :
    (c : ValidationContext) (p : OutPoint) {u : Utxo}
    → find_utxo c p ≡ ok u
    → c.get_utxo p ≡ ok (some u)
unfolding find_utxo
find_utxo-eq-ok c p h =
    let (o, e, k) = >>=-eq-ok (c.get_utxo p) (λ utxo. ok_or utxo missing_tx_input) h in
    cc (e, ok_or-eq-ok o missing_tx_input k)

pub value_at-find_utxo :
    (c : ValidationContext) (p : OutPoint) {u : Utxo}
    → find_utxo c p ≡ ok u
    → value_at c p ≡ u.output.value
unfolding value_at
value_at-find_utxo c p h = ap found_value h

pub sum_outputs-eq-ok :
    (total : ℕ) (outputs : List TxOutput) (n : ℕ)
    → sum_outputs total outputs ≡ ok n
    → n ≡ total + output_value outputs
unfolding sum_outputs output_value
sum_outputs-eq-ok total [] n h = ground arith
sum_outputs-eq-ok total (output ∷ outputs) n h =
    ground (arith, sum_outputs-eq-ok (total + output.value) outputs n)

pub sum_outputs-lt :
    (total : ℕ) (outputs : List TxOutput) (n : ℕ)
    → total < u64_mod
    → sum_outputs total outputs ≡ ok n
    → n < u64_mod
unfolding sum_outputs
sum_outputs-lt total [] n b h = ground arith
sum_outputs-lt total (output ∷ outputs) n b h =
    ground (arith, sum_outputs-lt (total + output.value) outputs n)

pub sum_valid_outputs-eq-ok :
    (params : ConsensusParams) (i total : ℕ) (outputs : List TxOutput) (n : ℕ)
    → total < u64_mod
    → sum_valid_outputs params i total outputs ≡ ok n
    → (n ≡ total + output_value outputs) × (n < u64_mod)
unfolding sum_valid_outputs output_value
sum_valid_outputs-eq-ok params i total [] n b h = ground arith
sum_valid_outputs-eq-ok params i total (output ∷ outputs) n b h =
    ground (arith, sum_valid_outputs-eq-ok params (i + 1) (total + output.value) outputs n)

pub wrapping_sum-output_value :
    (outputs : List TxOutput) → wrapping_sum outputs ≡ output_value outputs % u64_mod
unfolding wrapping_sum output_value
wrapping_sum-output_value [] = refl
wrapping_sum-output_value (output ∷ outputs) = omega (arith, wrapping_sum-output_value outputs)

pub sum_mature_inputs-eq-ok :
    (c : ValidationContext) (height total : ℕ) (inputs : List TxInput) (n : ℕ)
    → sum_mature_inputs c height total inputs ≡ ok n
    → n ≡ total + spent_value c inputs
unfolding sum_mature_inputs spent_value
sum_mature_inputs-eq-ok c height total [] n h = ground arith
sum_mature_inputs-eq-ok c height total (input ∷ inputs) n h =
    elim (Result-cases (find_utxo c input.previous_output)) [
      | inl (u, e) ↦ ground (
        arith,
        e,
        value_at-find_utxo c input.previous_output e,
        sum_mature_inputs-eq-ok c height (total + u.output.value) inputs n,
      )
      | inr (x, e) ↦ ground (arith, e)
    ]

pub sum_input_values-eq-ok :
    (c : ValidationContext) (lock_time total : ℕ) (inputs : List TxInput) (n : ℕ)
    → sum_input_values c lock_time total inputs ≡ ok n
    → n ≡ total + spent_value c inputs
unfolding sum_input_values spent_value
sum_input_values-eq-ok c lock_time total [] n h = ground arith
sum_input_values-eq-ok c lock_time total (input ∷ inputs) n h =
    elim (Result-cases (find_utxo c input.previous_output)) [
      | inl (u, e) ↦ ground (
        arith,
        e,
        value_at-find_utxo c input.previous_output e,
        sum_input_values-eq-ok c lock_time (total + u.output.value) inputs n,
      )
      | inr (x, e) ↦ ground (arith, e)
    ]
