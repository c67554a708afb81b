-- ===== src/Utxo/Proofs/Value.antt =====
-- The money in the set: what a validated transaction does to the sum of all values.
use rusty_coin.Common.{
  ℕ, suc, ◌++◌, ◌^◌, All, ◌+◌, ◌%◌, ◌≤◌, ◌<◌, Bool, true, false, List, [], ◌∷◌, none, some, ◌≡◌,
  ◌≢◌, refl, arith, ◌∙◌, ite,
}
use rusty_coin.Common.Words.{u64_mod, Bytes}
use rusty_coin.Common.HashMap.{get, get-remove, remove, insert}
use rusty_coin.Types.Tx.{Hash, OutPoint, TxInput, TxOutput, Utxo, outpoint_key}
use rusty_coin.Types.Transaction.{
  Transaction, standard, get_inputs, get_outputs, get_fee, get_lock_time, is_coinbase,
}
use rusty_coin.Types.Block.{Encoding, txid}
use rusty_coin.Utxo.Set.{UtxoSet, get_utxo, add_utxo, remove_utxo}
use rusty_coin.Utxo.Update.{
  outpoint_at, remove_inputs, add_outputs, add_all, update_from_transaction,
}
use rusty_coin.Utxo.Validate.{contains, sum_inputs, validate_transaction_comprehensive}
use rusty_coin.Utxo.Proofs.Validity.{
  output_value, sum_inputs_cons, validate-sums, sum_outputs_sound,
  validate_transaction_comprehensive_iff,
}
use mathlib.Core.Logic.{if_neg}

-- The sum of all values in the set, without wrap-around.
unfoldable pub supply : UtxoSet → ℕ
supply [] = 0
supply ((p, utxo) ∷ s) = utxo.output.value + supply s

supply-remove_le : (p : OutPoint) (s : UtxoSet) → supply (remove p s) ≤ supply s
unfolding supply remove
supply-remove_le p [] = omega arith
supply-remove_le p ((q, utxo) ∷ s) =
    elim (outpoint_key.eq q p)
      as (λ d.
        supply (ite d (remove p s) ((q, utxo) ∷ remove p s)) ≤ utxo.output.value + supply s) [
          | yes e ↦ omega (arith, supply-remove_le p s)
          | no e ↦ omega (arith, supply-remove_le p s)
        ]

-- Removing an entry takes its value away at least.
supply-remove :
    (p : OutPoint) (utxo : Utxo) (s : UtxoSet)
    → get p s ≡ some utxo
    → supply (remove p s) + utxo.output.value ≤ supply s
unfolding supply remove get
supply-remove p utxo [] h = absurd (cc h)
supply-remove p utxo ((q, u) ∷ s) h =
    elim (outpoint_key.eq q p)
        as (λ d.
          ite d (some u) (get p s) ≡ some utxo
          → supply (ite d (remove p s) ((q, u) ∷ remove p s)) + utxo.output.value
            ≤ u.output.value + supply s) [
              | yes e ↦ λ g. ground (arith, supply-remove_le p s, g)
              | no e ↦ λ g. omega (arith, supply-remove p utxo s g)
            ]
      h

supply-add_outputs :
    (id : Hash) (coinbase : Bool) (height i : ℕ) (outputs : List TxOutput) (s : UtxoSet)
    → supply (add_outputs id coinbase height i outputs s) ≤ supply s + output_value outputs
unfolding add_outputs output_value add_utxo insert supply
supply-add_outputs id coinbase height i [] s = omega arith
supply-add_outputs id coinbase height i (output ∷ outputs) s =
    let p = outpoint_at id i in
    let u : Utxo = record { output = output; is_coinbase = coinbase; creation_height = height } in
    omega (
      arith,
      supply-add_outputs id coinbase height (suc i) outputs (add_utxo p u s),
      supply-remove_le p s,
    )

not_contains_cons :
    (p q : OutPoint) (spent : List OutPoint)
    → contains q (p ∷ spent) ≡ false
    → (p ≢ q) × (contains q spent ≡ false)
unfolding contains
not_contains_cons p q spent h = ground arith

-- The entries that the inputs spend hold at least the sum of the inputs that the checks compute.
supply-remove_inputs :
    (s : UtxoSet) (lock_time height maturity total r : ℕ) (spent : List OutPoint)
    (inputs : List TxInput) (now : UtxoSet)
    → ((q : OutPoint) → contains q spent ≡ false → get_utxo q now ≡ get_utxo q s)
    → sum_inputs s lock_time height maturity spent total inputs ≡ some r
    → supply (remove_inputs inputs now) + r ≤ supply now + total
unfolding sum_inputs remove_inputs get_utxo remove_utxo
supply-remove_inputs s lock_time height maturity total r spent [] now agree h = ground arith
supply-remove_inputs s lock_time height maturity total r spent (input ∷ inputs) now agree h =
    let (utxo, g, c, i, l, rest) =
      sum_inputs_cons s lock_time height maturity total r spent input inputs h in
    let p = input.previous_output in
    let ih =
      supply-remove_inputs s lock_time height maturity ((total + utxo.output.value) % u64_mod) r
        (p ∷ spent) inputs (remove p now)
        (λ q d.
          let (ne, f) = not_contains_cons p q spent d in
          get-remove p q now ∙ if_neg (outpoint_key.eq p q) ne none (get q now) ∙ agree q f)
        rest in
    omega (arith, ih, supply-remove p utxo now (agree p c ∙ g))

-- Money is not made: where a transaction passes the checks and its outputs with its fee do not
-- exceed 64 bits, applying it leaves the set with a total value that, with the fee, is at most the
-- total before.
pub supply-update_from_transaction :
    (enc : Encoding) (s : UtxoSet) (tx : Transaction) (height maturity dust : ℕ)
    → validate_transaction_comprehensive s tx height maturity dust ≡ true
    → output_value (get_outputs tx) + get_fee tx < u64_mod
    → supply (update_from_transaction enc tx height s) + get_fee tx ≤ supply s
unfolding update_from_transaction add_all
supply-update_from_transaction enc s tx height maturity dust h b =
    let (i, o, ei, eo, l) = validate-sums s tx height maturity dust h in
    let spent =
      supply-remove_inputs s (get_lock_time tx) height maturity 0 i [] (get_inputs tx) s
        (λ q _. refl) ei in
    let made =
      supply-add_outputs (txid enc tx) (is_coinbase tx) height 0 (get_outputs tx)
        (remove_inputs (get_inputs tx) s) in
    omega (arith, spent, made, (sum_outputs_sound dust 0 o (get_outputs tx) (omega arith) eo).1)

output_value-append :
    (xs ys : List TxOutput) → output_value (xs ++ ys) ≡ output_value xs + output_value ys
unfolding output_value
output_value-append [] ys = omega arith
output_value-append (x ∷ xs) ys = omega (arith, output_value-append xs ys)

All-append :
    (P : TxOutput → Type 0) (xs ys : List TxOutput) → All P xs → All P ys → All P (xs ++ ys)
All-append P [] ys h k = k
All-append P (x ∷ xs) ys h k = (h.0, All-append P xs ys h.1 k)

-- Two outputs of 2 ^ 63 each.
abbrev pub from_nothing : Bytes → List TxOutput
from_nothing script =
    record { value = 2 ^ 63; script_pubkey = script; memo = none }
    ∷ record { value = 2 ^ 63; script_pubkey = script; memo = none }
    ∷ []

-- Money is made where the sum of the outputs wraps around: a standard transaction that passes the
-- checks still passes them with two more outputs of 2 ^ 63 each, where the dust limit is at most
-- 2 ^ 63.
pub validate-from_nothing :
    (s : UtxoSet) (version lock_time fee height maturity dust : ℕ) (inputs : List TxInput)
    (outputs : List TxOutput) (witness : List Bytes) (script : Bytes)
    → dust ≤ 2 ^ 63
    → validate_transaction_comprehensive s
        (standard version inputs outputs lock_time fee witness)
        height
        maturity
        dust
      ≡ true
    → validate_transaction_comprehensive s
        (standard version inputs (outputs ++ from_nothing script) lock_time fee witness)
        height
        maturity
        dust
      ≡ true
unfolding output_value get_inputs get_lock_time get_outputs get_fee
validate-from_nothing s version lock_time fee height maturity dust inputs outputs witness script d
      h =
    let v =
      (validate_transaction_comprehensive_iff s
          (standard version inputs outputs lock_time fee witness) height maturity dust).0
        h in
    (validate_transaction_comprehensive_iff s
        (standard version inputs (outputs ++ from_nothing script) lock_time fee witness) height
        maturity dust).1
      (record {
        are_fresh = v.are_fresh;
        are_spendable = v.are_spendable;
        no_dust =
            All-append (λ output. dust ≤ output.value) outputs (from_nothing script) v.no_dust
              (d, (d, tt));
        is_balanced =
            omega (arith, v.is_balanced, output_value-append outputs (from_nothing script));
      })
