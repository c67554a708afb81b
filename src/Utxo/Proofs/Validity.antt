-- ===== src/Utxo/Proofs/Validity.antt =====
-- The checks on a transaction against a description of the valid ones.
use rusty_coin.Common.{
  ℕ, ◌+◌, ◌-◌, ◌%◌, ◌≤◌, ◌<◌, true, false, List, [], ◌∷◌, none, some, ◌≡◌, ◌↔◌, arith, ap, ◌∙◌, ◌⊎◌,
  All,
}
use rusty_coin.Common.Words.{u64_mod, u64_max}
use rusty_coin.Types.Tx.{OutPoint, TxInput, TxOutput, Utxo}
use rusty_coin.Types.Transaction.{Transaction, get_inputs, get_outputs, get_lock_time, get_fee}
use rusty_coin.Script.Engine.{locktime_threshold}
use rusty_coin.Utxo.Set.{UtxoSet, get_utxo}
use rusty_coin.Utxo.Validate.{
  contains, is_immature, is_locked, sum_inputs, sum_outputs, validate_transaction_comprehensive,
}

-- The sums of the values, without wrap-around; an input that is not in the set counts nothing.
unfoldable pub output_value : List TxOutput → ℕ
output_value [] = 0
output_value (output ∷ outputs) = output.value + output_value outputs

unfoldable pub input_value : UtxoSet → List TxInput → ℕ
input_value s [] = 0
input_value s (input ∷ inputs) =
    elim (get_utxo input.previous_output s) [ none ↦ 0 | some utxo ↦ utxo.output.value ]
    + input_value s inputs

-- No outpoint of the inputs stands twice or among those given.
abbrev pub AreFresh : List OutPoint → List TxInput → Type 0
AreFresh spent [] = Unit {0}
AreFresh spent (input ∷ inputs) =
    (contains input.previous_output spent ≡ false) × AreFresh (input.previous_output ∷ spent) inputs

-- An input that a transaction of this lock time may spend at this height.
pub record IsSpendable (s : UtxoSet) (lock_time height maturity : ℕ) (input : TxInput)
    : Type 0 where
  pub utxo : Utxo
  pub is_unspent : get_utxo input.previous_output s ≡ some utxo
  pub is_mature :
      (height ≡ u64_max) ⊎ (utxo.is_coinbase ≡ false) ⊎ (maturity ≤ height - utxo.creation_height)
  pub is_unlocked : (height ≡ u64_max) ⊎ (500000000 ≤ lock_time) ⊎ (lock_time ≤ height)

-- What the checks amount to: inputs in the set, each once, mature and unlocked; no dust; and the
-- outputs with the fee at most the inputs, both modulo 2 ^ 64.
pub record IsValid (s : UtxoSet) (tx : Transaction) (height maturity dust : ℕ) : Type 0 where
  pub are_fresh : AreFresh [] (get_inputs tx)
  pub are_spendable : All (IsSpendable s (get_lock_time tx) height maturity) (get_inputs tx)
  pub no_dust : All (λ output. dust ≤ output.value) (get_outputs tx)
  pub is_balanced :
      (output_value (get_outputs tx) + get_fee tx) % u64_mod
      ≤ input_value s (get_inputs tx) % u64_mod

is_immature_iff :
    (utxo : Utxo) (height maturity : ℕ)
    → (is_immature utxo height maturity ≡ false) ↔ (
        (height ≡ u64_max)
        ⊎ (utxo.is_coinbase ≡ false)
        ⊎ (maturity ≤ height - utxo.creation_height))
unfolding is_immature
is_immature_iff utxo height maturity = ground arith

is_locked_iff :
    (lock_time height : ℕ)
    → (is_locked lock_time height ≡ false)
      ↔ ((height ≡ u64_max) ⊎ (locktime_threshold ≤ lock_time) ⊎ (lock_time ≤ height))
unfolding is_locked
is_locked_iff lock_time height = ground arith

-- One input passed by the loop.
pub sum_inputs_cons :
    (s : UtxoSet) (lock_time height maturity total r : ℕ) (spent : List OutPoint) (input : TxInput)
    (inputs : List TxInput)
    → sum_inputs s lock_time height maturity spent total (input ∷ inputs) ≡ some r
    → (utxo : Utxo) × (get_utxo input.previous_output s ≡ some utxo)
      × (contains input.previous_output spent ≡ false)
      × (is_immature utxo height maturity ≡ false)
      × (is_locked lock_time height ≡ false)
      × (sum_inputs s lock_time height maturity
            (input.previous_output ∷ spent)
            ((total + utxo.output.value) % u64_mod)
            inputs
          ≡ some r)
unfolding sum_inputs
sum_inputs_cons s lock_time height maturity total r spent input inputs h = ground arith

sum_inputs_of :
    (s : UtxoSet) (lock_time height maturity total r : ℕ) (spent : List OutPoint) (input : TxInput)
    (inputs : List TxInput) (utxo : Utxo)
    → get_utxo input.previous_output s ≡ some utxo
    → contains input.previous_output spent ≡ false
    → is_immature utxo height maturity ≡ false
    → is_locked lock_time height ≡ false
    → sum_inputs s lock_time height maturity
        (input.previous_output ∷ spent)
        ((total + utxo.output.value) % u64_mod)
        inputs
      ≡ some r
    → sum_inputs s lock_time height maturity spent total (input ∷ inputs) ≡ some r
unfolding sum_inputs
sum_inputs_of s lock_time height maturity total r spent input inputs utxo g c i l h = ground arith

-- What the loop over the inputs passes: fresh spendable inputs, with their sum modulo 2 ^ 64.
pub sum_inputs_sound :
    (s : UtxoSet) (lock_time height maturity total r : ℕ) (spent : List OutPoint)
    (inputs : List TxInput)
    → total < u64_mod
    → sum_inputs s lock_time height maturity spent total inputs ≡ some r
    → AreFresh spent inputs
      × All (IsSpendable s lock_time height maturity) inputs
      × (r ≡ (total + input_value s inputs) % u64_mod)
unfolding sum_inputs input_value
sum_inputs_sound s lock_time height maturity total r spent [] b h = (tt, tt, ground arith)
sum_inputs_sound s lock_time height maturity total r spent (input ∷ inputs) b h =
    let (utxo, g, c, i, l, rest) =
      sum_inputs_cons s lock_time height maturity total r spent input inputs h in
    let ih =
      sum_inputs_sound s lock_time height maturity ((total + utxo.output.value) % u64_mod) r
        (input.previous_output ∷ spent) inputs (omega arith) rest in
    (
      (c, ih.0),
      (
        record {
          utxo = utxo;
          is_unspent = g;
          is_mature = (is_immature_iff utxo height maturity).0 i;
          is_unlocked = (is_locked_iff lock_time height).0 l;
        },
        ih.1,
      ),
      rw g (omega (arith, ih.2)),
    )

-- And it passes all of those.
pub sum_inputs_complete :
    (s : UtxoSet) (lock_time height maturity total : ℕ) (spent : List OutPoint)
    (inputs : List TxInput)
    → total < u64_mod
    → AreFresh spent inputs
    → All (IsSpendable s lock_time height maturity) inputs
    → sum_inputs s lock_time height maturity spent total inputs
      ≡ some ((total + input_value s inputs) % u64_mod)
unfolding sum_inputs input_value
sum_inputs_complete s lock_time height maturity total spent [] b f a = ap some (omega arith)
sum_inputs_complete s lock_time height maturity total spent (input ∷ inputs) b f a =
    let u = a.0.utxo in
    sum_inputs_of s lock_time height maturity total _ spent input inputs u a.0.is_unspent f.0
      ((is_immature_iff u height maturity).1 a.0.is_mature)
      ((is_locked_iff lock_time height).1 a.0.is_unlocked)
      (sum_inputs_complete s lock_time height maturity ((total + u.output.value) % u64_mod)
          (input.previous_output ∷ spent) inputs (omega arith) f.1 a.1
        ∙ ap some (rw a.0.is_unspent (omega arith)))

pub sum_outputs_sound :
    (dust total r : ℕ) (outputs : List TxOutput)
    → total < u64_mod
    → sum_outputs dust total outputs ≡ some r
    → All (λ output. dust ≤ output.value) outputs × (r ≡ (total + output_value outputs) % u64_mod)
unfolding sum_outputs output_value
sum_outputs_sound dust total r [] b h = (tt, ground arith)
sum_outputs_sound dust total r (output ∷ outputs) b h =
    let (d, rest) : (dust ≤ output.value)
        × (sum_outputs dust ((total + output.value) % u64_mod) outputs ≡ some r) =
      ground arith in
    let ih =
      sum_outputs_sound dust ((total + output.value) % u64_mod) r outputs (omega arith) rest in
    ((d, ih.0), omega (arith, ih.1))

pub sum_outputs_complete :
    (dust total : ℕ) (outputs : List TxOutput)
    → total < u64_mod
    → All (λ output. dust ≤ output.value) outputs
    → sum_outputs dust total outputs ≡ some ((total + output_value outputs) % u64_mod)
unfolding sum_outputs output_value
sum_outputs_complete dust total [] b a = ap some (omega arith)
sum_outputs_complete dust total (output ∷ outputs) b a =
    let e : ((total + output.value) % u64_mod + output_value outputs) % u64_mod
        ≡ (total + (output.value + output_value outputs)) % u64_mod =
      omega arith in
    let ih =
      sum_outputs_complete dust ((total + output.value) % u64_mod) outputs (omega arith) a.1
      ∙ ap some e in
    let d : dust ≤ output.value = a.0 in ground (arith, d, ih)

module _ (s : UtxoSet) (tx : Transaction) (height maturity dust : ℕ) where
  -- Both loops pass a transaction that is accepted, with the sums that are compared.
  pub validate-sums :
      validate_transaction_comprehensive s tx height maturity dust ≡ true
      → (i : ℕ) × (o : ℕ) × (sum_inputs s (get_lock_time tx) height maturity [] 0 (get_inputs tx)
          ≡ some i)
        × (sum_outputs dust 0 (get_outputs tx) ≡ some o)
        × ((o + get_fee tx) % u64_mod ≤ i)
  unfolding validate_transaction_comprehensive
  validate-sums h = ground arith

  validate_of_sums :
      (i o : ℕ)
      → sum_inputs s (get_lock_time tx) height maturity [] 0 (get_inputs tx) ≡ some i
      → sum_outputs dust 0 (get_outputs tx) ≡ some o
      → (o + get_fee tx) % u64_mod ≤ i
      → validate_transaction_comprehensive s tx height maturity dust ≡ true
  unfolding validate_transaction_comprehensive
  validate_of_sums i o a b l = ground arith

  validate_sound :
      validate_transaction_comprehensive s tx height maturity dust ≡ true
      → IsValid s tx height maturity dust
  validate_sound h =
      let (i, o, a, b, l) = validate-sums h in
      let m =
        sum_inputs_sound s (get_lock_time tx) height maturity 0 i [] (get_inputs tx) (omega arith)
          a in
      let n = sum_outputs_sound dust 0 o (get_outputs tx) (omega arith) b in
      record {
        are_fresh = m.0;
        are_spendable = m.1;
        no_dust = n.0;
        is_balanced = omega (arith, m.2, n.1);
      }

  validate_complete :
      IsValid s tx height maturity dust
      → validate_transaction_comprehensive s tx height maturity dust ≡ true
  validate_complete v =
      validate_of_sums _ _
        (sum_inputs_complete s (get_lock_time tx) height maturity 0 [] (get_inputs tx) (omega arith)
          v.are_fresh v.are_spendable)
        (sum_outputs_complete dust 0 (get_outputs tx) (omega arith) v.no_dust)
        (omega (arith, v.is_balanced))

  -- The code accepts a transaction exactly if its inputs are in the set, each once; for each
  -- input the output is mature, and the lock time is reached if it is below 500,000,000 (at the height
  -- 2 ^ 64 - 1 neither is asked for); no output is dust, a data output included; and the outputs with the fee are
  -- at most the inputs, both sums taken modulo 2 ^ 64. Timestamps and sequences have no part in it.
  pub validate_transaction_comprehensive_iff :
      (validate_transaction_comprehensive s tx height maturity dust ≡ true)
      ↔ IsValid s tx height maturity dust
  validate_transaction_comprehensive_iff = (validate_sound, validate_complete)
