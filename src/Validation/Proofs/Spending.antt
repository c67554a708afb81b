-- ===== src/Validation/Proofs/Spending.antt =====
-- What the inputs of accepted transactions spend.
use rusty_coin.Common.{
  ℕ, suc, ◌+◌, ◌≤◌, ◌≡◌, refl, ap, arith, false, some, List, [], ◌∷◌, inl, inr, All,
}
use rusty_coin.Common.Result.{ok, Result-cases}
use rusty_coin.Types.Tx.{OutPoint, TxInput, Utxo, OutPoint-discrete}
use rusty_coin.Utxo.Validate.{contains}
use rusty_coin.Validation.Context.{ValidationContext}
use rusty_coin.Validation.Inputs.{find_utxo}
use rusty_coin.Validation.Transactions.{Spending, is_too_young, spend_inputs}
use rusty_coin.Validation.Proofs.Sums.{spent_value, value_at-find_utxo, find_utxo-eq-ok}

-- How often an outpoint stands in a list, and how often inputs name it.
unfoldable pub times_listed : OutPoint → List OutPoint → ℕ
times_listed p [] = 0
times_listed p (q ∷ qs) =
    let rest = times_listed p qs in elim (OutPoint-discrete q p) [ yes e ↦ suc rest | no e ↦ rest ]

unfoldable pub times_spent : OutPoint → List TxInput → ℕ
times_spent p [] = 0
times_spent p (input ∷ inputs) =
    let rest = times_spent p inputs in
    elim (OutPoint-discrete input.previous_output p) [ yes e ↦ suc rest | no e ↦ rest ]

-- An output may be spent at this height.
abbrev pub IsMature : ValidationContext → ℕ → Utxo → Type 0
IsMature c height utxo = is_too_young c utxo height ≡ false

-- The outpoint holds an output that may be spent at this height.
abbrev pub IsSpendable : ValidationContext → ℕ → OutPoint → Type 0
IsSpendable c height p = (u : Utxo) × (c.get_utxo p ≡ ok (some u)) × IsMature c height u

not_contained : (p : OutPoint) (qs : List OutPoint) → contains p qs ≡ false → times_listed p qs ≡ 0
unfolding contains times_listed
not_contained p [] h = refl
not_contained p (q ∷ qs) h = elim (OutPoint-discrete q p) [
  | yes e ↦ ground (arith, e)
  | no e ↦ ground (arith, e, not_contained p qs)
]

-- One step of the loop over the inputs.
pub spend_inputs-eq-ok :
    (c : ValidationContext) (height : ℕ) (spent : List OutPoint) (total : ℕ) (input : TxInput)
    (inputs : List TxInput) (s : Spending)
    → spend_inputs c height spent total (input ∷ inputs) ≡ ok s
    → (u : Utxo) × (find_utxo c input.previous_output ≡ ok u)
      × IsMature c height u
      × (contains input.previous_output spent ≡ false)
      × (spend_inputs c height (input.previous_output ∷ spent) (total + u.output.value) inputs
          ≡ ok s)
unfolding spend_inputs
spend_inputs-eq-ok c height spent total input inputs s h =
    elim (Result-cases (find_utxo c input.previous_output)) [
      | inl (u, e) ↦
          let (m, n, k) : IsMature c height u
              × (contains input.previous_output spent ≡ false)
              × (spend_inputs c height (input.previous_output ∷ spent) (total + u.output.value)
                    inputs
                  ≡ ok s) =
            ground (arith, e) in
          (u, e, m, n, k)
      | inr (x, e) ↦ ground (arith, e)
    ]

pub spend_inputs-nil :
    (c : ValidationContext) (height : ℕ) (spent : List OutPoint) (total : ℕ) (s : Spending)
    → spend_inputs c height spent total [] ≡ ok s
    → (spent ≡ s.spent_outputs) × (total ≡ s.total)
unfolding spend_inputs
spend_inputs-nil c height spent total s h = ground arith

module _ (c : ValidationContext) (height : ℕ) where
  pub times_listed-spend_inputs :
      (p : OutPoint) (spent : List OutPoint) (total : ℕ) (inputs : List TxInput) (s : Spending)
      → spend_inputs c height spent total inputs ≡ ok s
      → times_listed p spent ≤ 1
      → (times_listed p s.spent_outputs ≡ times_spent p inputs + times_listed p spent)
        × (times_listed p s.spent_outputs ≤ 1)
  unfolding times_spent times_listed
  times_listed-spend_inputs p spent total [] s h b =
      let (e, _) = spend_inputs-nil c height spent total s h in
      ground (arith, ap (times_listed p) e)
  times_listed-spend_inputs p spent total (input ∷ inputs) s h b =
      let (u, _, _, n, k) = spend_inputs-eq-ok c height spent total input inputs s h in
      elim (OutPoint-discrete input.previous_output p) [
        | yes e ↦ ground (
          arith,
          e,
          not_contained input.previous_output spent n,
          times_listed-spend_inputs p (input.previous_output ∷ spent) (total + u.output.value)
              inputs s k,
        )
        | no e ↦ ground (
          arith,
          e,
          times_listed-spend_inputs p (input.previous_output ∷ spent) (total + u.output.value)
              inputs s k,
        )
      ]

  pub total-spend_inputs :
      (spent : List OutPoint) (total : ℕ) (inputs : List TxInput) (s : Spending)
      → spend_inputs c height spent total inputs ≡ ok s
      → s.total ≡ total + spent_value c inputs
  unfolding spent_value
  total-spend_inputs spent total [] s h =
      omega (arith, (spend_inputs-nil c height spent total s h).1)
  total-spend_inputs spent total (input ∷ inputs) s h =
      let (u, e, _, n, k) = spend_inputs-eq-ok c height spent total input inputs s h in
      omega (
        arith,
        value_at-find_utxo c input.previous_output e,
        total-spend_inputs (input.previous_output ∷ spent) (total + u.output.value) inputs s k,
      )

  pub All-spend_inputs :
      (spent : List OutPoint) (total : ℕ) (inputs : List TxInput) (s : Spending)
      → spend_inputs c height spent total inputs ≡ ok s
      → All (λ input. IsSpendable c height input.previous_output) inputs
  All-spend_inputs spent total [] s h = tt
  All-spend_inputs spent total (input ∷ inputs) s h =
      let (u, e, m, n, k) = spend_inputs-eq-ok c height spent total input inputs s h in
      (
        (u, find_utxo-eq-ok c input.previous_output e, m),
        All-spend_inputs (input.previous_output ∷ spent) (total + u.output.value) inputs s k,
      )
