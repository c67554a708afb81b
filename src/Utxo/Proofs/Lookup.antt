-- ===== src/Utxo/Proofs/Lookup.antt =====
-- What a lookup finds after a transaction or a block is applied.
use rusty_coin.Common.{
  ℕ, zero, suc, ◌+◌, ◌<◌, ◌≤◌, Bool, false, ◌||◌, List, [], ◌∷◌, Option, none, some, ◌≡◌, refl, sym,
  ◌∙◌, ap, arith, ite, if◌then◌else◌, get_elem?, length,
}
use mathlib.Core.Path.{subst}
use rusty_coin.Common.Words.{u32_mod}
use rusty_coin.Common.HashMap.{get-insert, get-remove}
use rusty_coin.Types.Tx.{Hash, OutPoint, TxInput, TxOutput, Utxo, OutPoint-discrete, outpoint_key}
use rusty_coin.Types.Transaction.{Transaction, get_inputs, get_outputs, is_coinbase}
use rusty_coin.Types.Block.{Block, Encoding, txid}
use rusty_coin.Utxo.Set.{spends, UtxoSet, add_utxo, remove_utxo, get_utxo}
use rusty_coin.Utxo.Update.{
  outpoint_at, remove_inputs, add_outputs, add_all, update_from_transaction, remove_block_inputs,
  add_block_outputs, update_from_block,
}

abbrev pub or_else : {A : Type 0} → Option A → Option A → Option A
or_else (some a) o = some a
or_else none o = o

unfoldable pub spends_in : List Transaction → OutPoint → Bool
spends_in [] p = false
spends_in (tx ∷ txs) p = spends (get_inputs tx) p || spends_in txs p

-- The entry that the outputs from index `i` on make at an outpoint, the last where there are more.
unfoldable pub made : Hash → Bool → ℕ → ℕ → List TxOutput → OutPoint → Option Utxo
made id coinbase height i [] p = none
made id coinbase height i (output ∷ outputs) p =
    or_else (made id coinbase height (suc i) outputs p) (
      ite (OutPoint-discrete (outpoint_at id i) p)
        (some (record { output = output; is_coinbase = coinbase; creation_height = height })) none)

unfoldable pub created : Encoding → ℕ → Transaction → OutPoint → Option Utxo
created enc height tx p = made (txid enc tx) (is_coinbase tx) height 0 (get_outputs tx) p

unfoldable pub created_in : Encoding → ℕ → List Transaction → OutPoint → Option Utxo
created_in enc height [] p = none
created_in enc height (tx ∷ txs) p = or_else (created_in enc height txs p) (created enc height tx p)

or_else_assoc : {A : Type 0} (a b c : Option A) → or_else (or_else a b) c ≡ or_else a (or_else b c)
or_else_assoc (some a) b c = refl
or_else_assoc none b c = refl

pub get_utxo-remove_inputs :
    (inputs : List TxInput) (p : OutPoint) (s : UtxoSet)
    → get_utxo p (remove_inputs inputs s) ≡ (if spends inputs p then none else get_utxo p s)
unfolding remove_inputs spends get_utxo remove_utxo outpoint_key
get_utxo-remove_inputs [] p s = refl
get_utxo-remove_inputs (input ∷ inputs) p s = ground (
  arith,
  get_utxo-remove_inputs inputs p (remove_utxo input.previous_output s),
  get-remove input.previous_output p s,
)

pub get_utxo-add_outputs :
    (id : Hash) (coinbase : Bool) (height i : ℕ) (outputs : List TxOutput) (p : OutPoint)
    (s : UtxoSet)
    → get_utxo p (add_outputs id coinbase height i outputs s)
      ≡ or_else (made id coinbase height i outputs p) (get_utxo p s)
unfolding add_outputs made get_utxo add_utxo outpoint_key
get_utxo-add_outputs id coinbase height i [] p s = refl
get_utxo-add_outputs id coinbase height i (output ∷ outputs) p s =
    let u : Utxo = record { output = output; is_coinbase = coinbase; creation_height = height } in
    ground (
      arith,
      get_utxo-add_outputs id coinbase height (suc i) outputs p (add_utxo (outpoint_at id i) u s),
      get-insert (outpoint_at id i) p u s,
    )

module _ (enc : Encoding) (height : ℕ) where
  pub get_utxo-add_all :
      (tx : Transaction) (p : OutPoint) (s : UtxoSet)
      → get_utxo p (add_all enc height tx s) ≡ or_else (created enc height tx p) (get_utxo p s)
  unfolding add_all created
  get_utxo-add_all tx p s =
      get_utxo-add_outputs (txid enc tx) (is_coinbase tx) height 0 (get_outputs tx) p s

  -- After a transaction is applied, an outpoint holds the output that the transaction creates
  -- there; if it creates none there, nothing where one of its inputs spends the outpoint, and what
  -- the outpoint held before where none does.
  pub get_utxo-update_from_transaction :
      (tx : Transaction) (p : OutPoint) (s : UtxoSet)
      → get_utxo p (update_from_transaction enc tx height s)
        ≡ or_else
            (created enc height tx p)
            (if spends (get_inputs tx) p then none else get_utxo p s)
  unfolding update_from_transaction
  get_utxo-update_from_transaction tx p s =
      rw
        (
          get_utxo-add_all tx p (remove_inputs (get_inputs tx) s),
          get_utxo-remove_inputs (get_inputs tx) p s,
        )
        refl

  pub get_utxo-remove_block_inputs :
      (txs : List Transaction) (p : OutPoint) (s : UtxoSet)
      → get_utxo p (remove_block_inputs txs s) ≡ (if spends_in txs p then none else get_utxo p s)
  unfolding remove_block_inputs spends_in
  get_utxo-remove_block_inputs [] p s = refl
  get_utxo-remove_block_inputs (tx ∷ txs) p s = ground (
    arith,
    get_utxo-remove_block_inputs txs p (remove_inputs (get_inputs tx) s),
    get_utxo-remove_inputs (get_inputs tx) p s,
  )

  pub get_utxo-add_block_outputs :
      (txs : List Transaction) (p : OutPoint) (s : UtxoSet)
      → get_utxo p (add_block_outputs enc height txs s)
        ≡ or_else (created_in enc height txs p) (get_utxo p s)
  unfolding add_block_outputs created_in
  get_utxo-add_block_outputs [] p s = refl
  get_utxo-add_block_outputs (tx ∷ txs) p s =
      get_utxo-add_block_outputs txs p (add_all enc height tx s)
      ∙ ap (or_else (created_in enc height txs p)) (get_utxo-add_all tx p s)
      ∙ sym (or_else_assoc (created_in enc height txs p) (created enc height tx p) (get_utxo p s))

  -- After a block is applied, an outpoint holds the last output that a transaction of the block
  -- creates there, even where the block spends it; if none creates one, nothing where an input of
  -- the block spends the outpoint, and what the outpoint held before where none does.
  pub get_utxo-update_from_block :
      (block : Block) (p : OutPoint) (s : UtxoSet)
      → get_utxo p (update_from_block enc block height s)
        ≡ or_else
            (created_in enc height block.transactions p)
            (if spends_in block.transactions p then none else get_utxo p s)
  unfolding update_from_block
  get_utxo-update_from_block block p s =
      rw
        (
          get_utxo-add_block_outputs block.transactions p
              (remove_block_inputs block.transactions s),
          get_utxo-remove_block_inputs block.transactions p s,
        )
        refl

vout-injective :
    (id : Hash) (i v : ℕ) → i < u32_mod → outpoint_at id i ≡ record { txid = id; vout = v } → i ≡ v
vout-injective id i v l e = omega (arith, ap (λ p. p.vout) e)

-- Outputs from index `i` on make nothing below it.
made_below :
    (id : Hash) (coinbase : Bool) (height i v : ℕ) (outputs : List TxOutput)
    → i + length outputs ≤ u32_mod
    → v < i
    → made id coinbase height i outputs (record { txid = id; vout = v }) ≡ none
unfolding made
made_below id coinbase height i v [] l b = refl
made_below id coinbase height i v (output ∷ outputs) l b =
    elim (OutPoint-discrete (outpoint_at id i) (record { txid = id; vout = v }))
      as (λ d.
        or_else (made id coinbase height (suc i) outputs (record { txid = id; vout = v })) (
          ite d
            (some (record { output = output; is_coinbase = coinbase; creation_height = height }))
            none)
        ≡ none) [
          | yes e ↦ absurd (omega (arith, vout-injective id i v (omega arith) e))
          | no e ↦
              rw (made_below id coinbase height (suc i) v outputs (omega arith) (omega arith)) refl
        ]

-- The outputs that a transaction makes stand at their indices, if there are at most 2 ^ 32.
made-get_elem? :
    (id : Hash) (coinbase : Bool) (height i j : ℕ) (outputs : List TxOutput) (output : TxOutput)
    → i + length outputs ≤ u32_mod
    → get_elem? outputs j ≡ some output
    → made id coinbase height i outputs (record { txid = id; vout = i + j })
      ≡ some (record { output = output; is_coinbase = coinbase; creation_height = height })
unfolding made
made-get_elem? id coinbase height i j [] output l e = absurd (cc e)
made-get_elem? id coinbase height i zero (o ∷ outputs) output l e =
    let q : OutPoint = record { txid = id; vout = i + 0 } in
    elim (OutPoint-discrete (outpoint_at id i) q)
      as (λ d.
        or_else (made id coinbase height (suc i) outputs q) (
          ite d (some (record { output = o; is_coinbase = coinbase; creation_height = height }))
            none)
        ≡ some (record { output = output; is_coinbase = coinbase; creation_height = height })) [
          | yes d ↦
              rw (made_below id coinbase height (suc i) (i + 0) outputs (omega arith) (omega arith))
                cc
          | no d ↦ absurd (d (ap (λ v. record { txid = id; vout = v }) (omega arith)))
        ]
made-get_elem? id coinbase height i (suc j) (o ∷ outputs) output l e =
    let v : i + suc j ≡ suc i + j = omega arith in
    rw (v, made-get_elem? id coinbase height (suc i) j outputs output (omega arith) e) refl

add_zero : (j : ℕ) → 0 + j ≡ j
add_zero j = omega arith

created-get_elem? :
    (enc : Encoding) (height j : ℕ) (tx : Transaction) (output : TxOutput)
    → length (get_outputs tx) ≤ u32_mod
    → get_elem? (get_outputs tx) j ≡ some output
    → created enc height tx (record { txid = txid enc tx; vout = j })
      ≡ some (record { output = output; is_coinbase = is_coinbase tx; creation_height = height })
unfolding created
created-get_elem? enc height j tx output l e =
    subst
      (λ v.
        made (txid enc tx) (is_coinbase tx) height 0 (get_outputs tx)
          (record { txid = txid enc tx; vout = v })
        ≡ some (record { output = output; is_coinbase = is_coinbase tx; creation_height = height }))
      (add_zero j)
      (made-get_elem? (txid enc tx) (is_coinbase tx) height 0 j (get_outputs tx) output
        (omega arith) e)

-- After a transaction of at most 2 ^ 32 outputs is applied, its outpoint with the index of an output
-- holds that output, with the height and whether the transaction is a coinbase.
pub update_from_transaction-get_elem? :
    (enc : Encoding) (height j : ℕ) (tx : Transaction) (output : TxOutput) (s : UtxoSet)
    → length (get_outputs tx) ≤ u32_mod
    → get_elem? (get_outputs tx) j ≡ some output
    → get_utxo (record { txid = txid enc tx; vout = j }) (update_from_transaction enc tx height s)
      ≡ some (record { output = output; is_coinbase = is_coinbase tx; creation_height = height })
update_from_transaction-get_elem? enc height j tx output s l e =
    rw
      (
        get_utxo-update_from_transaction enc height tx (record { txid = txid enc tx; vout = j }) s,
        created-get_elem? enc height j tx output l e,
      )
      refl
