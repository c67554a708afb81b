-- ===== src/Utxo/Proofs/Reverting.antt =====
-- A block reverted: what each outpoint holds afterwards.
use rusty_coin.Common.{
  ℕ, suc, Bool, true, false, List, [], ◌∷◌, Option, none, some, ◌≡◌, refl, sym, ◌∙◌, ap, arith, ite,
  if◌then◌else◌, ◌⊎◌,
}
use rusty_coin.Common.HashMap.{get, get-insert, get-remove}
use rusty_coin.Types.Tx.{Hash, OutPoint, TxInput, TxOutput, Utxo, OutPoint-discrete, outpoint_key}
use rusty_coin.Types.Transaction.{Transaction, get_inputs, get_outputs, is_coinbase}
use rusty_coin.Types.Block.{Block, Encoding, txid}
use rusty_coin.Utxo.Set.{spends, UtxoSet, add_utxo, remove_utxo, get_utxo}
use rusty_coin.Utxo.Update.{outpoint_at, update_from_block}
use rusty_coin.Utxo.Revert.{
  reverted, dummy_utxo, get_historical_utxo, remove_outputs, and_then, restore_input,
  restore_inputs, revert_transaction, revert_transactions, revert_block,
}
use rusty_coin.Utxo.Proofs.Lookup.{spends_in, made, created, created_in, get_utxo-update_from_block}

-- An outpoint's entry, or the dummy.
abbrev pub or_dummy : Option Utxo → Utxo
or_dummy (some utxo) = utxo
or_dummy none = dummy_utxo

abbrev pub restored : OutPoint → UtxoSet → UtxoSet
restored p s = add_utxo p (or_dummy (get_utxo p s)) s

restore_input-restored : (p : OutPoint) (s : UtxoSet) → restore_input p s ≡ reverted (restored p s)
unfolding restore_input get_historical_utxo
restore_input-restored p s = ground arith

get_utxo-restored :
    (p q : OutPoint) (s : UtxoSet)
    → get_utxo q (restored p s)
      ≡ ite (OutPoint-discrete p q) (some (or_dummy (get_utxo q s))) (get_utxo q s)
unfolding get_utxo add_utxo outpoint_key
get_utxo-restored p q s =
    get-insert p q (or_dummy (get p s)) s
    ∙ (elim (OutPoint-discrete p q)
        as (λ d.
          ite d (some (or_dummy (get p s))) (get q s)
          ≡ ite d (some (or_dummy (get q s))) (get q s)) [
            | yes e ↦ ap (λ r. some (or_dummy (get r s))) e
            | no e ↦ refl
          ])

get_utxo-restore_inputs :
    (q : OutPoint) (inputs : List TxInput) (s : UtxoSet)
    → (s' : UtxoSet) × (restore_inputs inputs s ≡ reverted s')
      × (get_utxo q s' ≡ (if spends inputs q then some (or_dummy (get_utxo q s)) else get_utxo q s))
unfolding restore_inputs spends
get_utxo-restore_inputs q [] s = (s, refl, refl)
get_utxo-restore_inputs q (input ∷ inputs) s =
    let (t, e, g) = get_utxo-restore_inputs q inputs s in
    let p = input.previous_output in
    (
      restored p t,
      ap (λ r. and_then r (restore_input p)) e ∙ restore_input-restored p t,
      ground (arith, get_utxo-restored p q t, g),
    )

-- What is left of an entry where outputs are removed.
abbrev pub unless_made : Option Utxo → Option Utxo → Option Utxo
unless_made (some utxo) o = none
unless_made none o = o

get_utxo-remove_outputs :
    (id : Hash) (coinbase : Bool) (height i : ℕ) (q : OutPoint) (outputs : List TxOutput)
    (s : UtxoSet)
    → get_utxo q (remove_outputs id i outputs s)
      ≡ unless_made (made id coinbase height i outputs q) (get_utxo q s)
unfolding remove_outputs made get_utxo remove_utxo outpoint_key
get_utxo-remove_outputs id coinbase height i q [] s = refl
get_utxo-remove_outputs id coinbase height i q (output ∷ outputs) s = ground (
  arith,
  get-remove (outpoint_at id i) q (remove_outputs id (suc i) outputs s),
  get_utxo-remove_outputs id coinbase height (suc i) q outputs s,
)

module _ (enc : Encoding) (height : ℕ) (q : OutPoint) where
  get_utxo-revert_transaction :
      (tx : Transaction) (s : UtxoSet)
      → (s' : UtxoSet) × (revert_transaction enc tx s ≡ reverted s')
        × (get_utxo q s' ≡ (
            let left = unless_made (created enc height tx q) (get_utxo q s) in
            if spends (get_inputs tx) q then some (or_dummy left) else left))
  unfolding revert_transaction created
  get_utxo-revert_transaction tx s =
      let (t, e, g) =
        get_utxo-restore_inputs q (get_inputs tx)
          (remove_outputs (txid enc tx) 0 (get_outputs tx) s) in
      (
        t,
        e,
        rw
            (sym (
              get_utxo-remove_outputs (txid enc tx) (is_coinbase tx) height 0 q (get_outputs tx) s))
            g,
      )

  get_utxo-revert_of_not_created :
      (txs : List Transaction) (s : UtxoSet)
      → created_in enc height txs q ≡ none
      → (s' : UtxoSet) × (revert_transactions enc txs s ≡ reverted s')
        × (get_utxo q s'
            ≡ (if spends_in txs q then some (or_dummy (get_utxo q s)) else get_utxo q s))
  unfolding revert_transactions created_in spends_in
  get_utxo-revert_of_not_created [] s n = (s, refl, refl)
  get_utxo-revert_of_not_created (tx ∷ txs) s n =
      let (t, e, g) = get_utxo-revert_of_not_created txs s (ground arith) in
      let (u, f, h) = get_utxo-revert_transaction tx t in
      (u, ap (λ r. and_then r (revert_transaction enc tx)) e ∙ f, ground (arith, g, h))

  get_utxo-revert_of_not_spent :
      (txs : List Transaction) (s : UtxoSet)
      → spends_in txs q ≡ false
      → (s' : UtxoSet) × (revert_transactions enc txs s ≡ reverted s')
        × (get_utxo q s' ≡ unless_made (created_in enc height txs q) (get_utxo q s))
  unfolding revert_transactions created_in spends_in
  get_utxo-revert_of_not_spent [] s n = (s, refl, refl)
  get_utxo-revert_of_not_spent (tx ∷ txs) s n =
      let (t, e, g) = get_utxo-revert_of_not_spent txs s (ground arith) in
      let (u, f, h) = get_utxo-revert_transaction tx t in
      (u, ap (λ r. and_then r (revert_transaction enc tx)) e ∙ f, ground (arith, g, h))

  -- Reverting a block that was just applied succeeds and restores each outpoint that the block does
  -- not spend and that it does not create or that was empty before.
  pub revert_block-update_from_block :
      (block : Block) (s : UtxoSet)
      → spends_in block.transactions q ≡ false
      → (created_in enc height block.transactions q ≡ none) ⊎ (get_utxo q s ≡ none)
      → (s' : UtxoSet) × (revert_block enc block (update_from_block enc block height s)
          ≡ reverted s')
        × (get_utxo q s' ≡ get_utxo q s)
  unfolding revert_block
  revert_block-update_from_block block s n h =
      let (t, e, g) =
        get_utxo-revert_of_not_spent block.transactions (update_from_block enc block height s) n in
      (t, e, ground (arith, g, get_utxo-update_from_block enc height block q s))

  -- Reverting a block that was just applied succeeds and puts an output without value and script at each outpoint
  -- that the block spends and does not create, whatever the block spent there.
  pub revert_block-forgets_spent :
      (block : Block) (s : UtxoSet)
      → spends_in block.transactions q ≡ true
      → created_in enc height block.transactions q ≡ none
      → (s' : UtxoSet) × (revert_block enc block (update_from_block enc block height s)
          ≡ reverted s')
        × (get_utxo q s' ≡ some dummy_utxo)
  unfolding revert_block
  revert_block-forgets_spent block s t n =
      let (u, e, g) =
        get_utxo-revert_of_not_created block.transactions (update_from_block enc block height s)
          n in
      (u, e, ground (arith, g, get_utxo-update_from_block enc height block q s))
