-- ===== src/Validation/Proofs/Applied.antt =====
-- A block written to the database against the transactions applied to the set one by one.
use rusty_coin.Common.{
  ℕ, suc, ◌≡◌, refl, ap, ◌∙◌, arith, Bool, true, false, ◌&&◌, List, [], ◌∷◌, ◌++◌, Option, none,
  some, ite, if◌then◌else◌, inl, inr, ◌⊎◌, sym, All, Bool-cases, Option-cases,
}
use rusty_coin.Common.HashMap.{get-insert, get-remove}
use rusty_coin.Common.Result.{ok, err, Result-cases}
use rusty_coin.Types.Tx.{Hash, OutPoint, TxInput, TxOutput, Utxo, OutPoint-discrete, outpoint_key}
use rusty_coin.Types.Transaction.{Transaction, get_inputs, get_outputs, is_coinbase}
use rusty_coin.Types.Block.{Block, Encoding, txid}
use rusty_coin.Utxo.Set.{UtxoSet, spends, get_utxo, add_utxo, remove_utxo}
use rusty_coin.Utxo.Update.{outpoint_at, update_from_transaction}
use rusty_coin.Utxo.Proofs.Lookup.{or_else, made, created, get_utxo-update_from_transaction}
use rusty_coin.Utxo.Proofs.Sequential.{update_each}
use rusty_coin.Validation.Apply.{
  Write, put_utxo, delete_utxo, after, Database, delete_inputs, put_outputs, transaction_batch,
  block_batch, ApplyError, write_error, stage, stage_all, apply_batch, apply_block_to_utxo_set,
}

after-++ :
    (xs ys : List Write) (p : OutPoint) (o : Option Utxo)
    → after (xs ++ ys) p o ≡ after ys p (after xs p o)
unfolding after
after-++ [] ys p o = refl
after-++ (put_utxo q utxo ∷ xs) ys p o =
    after-++ xs ys p (ite (OutPoint-discrete q p) (some utxo) o)
after-++ (delete_utxo q ∷ xs) ys p o = after-++ xs ys p (ite (OutPoint-discrete q p) none o)

after-delete_inputs :
    (inputs : List TxInput) (p : OutPoint) (o : Option Utxo)
    → after (delete_inputs inputs) p o ≡ (if spends inputs p then none else o)
unfolding after delete_inputs spends
after-delete_inputs [] p o = refl
after-delete_inputs (input ∷ inputs) p o =
    ground
      (arith, after-delete_inputs inputs p (ite (OutPoint-discrete input.previous_output p) none o))

after-put_outputs :
    (id : Hash) (coinbase : Bool) (height i : ℕ) (outputs : List TxOutput) (p : OutPoint)
    (o : Option Utxo)
    → after (put_outputs id coinbase height i outputs) p o
      ≡ or_else (made id coinbase height i outputs p) o
unfolding after put_outputs made
after-put_outputs id coinbase height i [] p o = refl
after-put_outputs id coinbase height i (output ∷ outputs) p o =
    let u : Utxo = record { output = output; is_coinbase = coinbase; creation_height = height } in
    ground (
      arith,
      after-put_outputs id coinbase height (suc i) outputs p
          (ite (OutPoint-discrete (outpoint_at id i) p) (some u) o),
    )

-- A coinbase transaction that names the outpoint in an input.
abbrev pub spends_as_coinbase : Transaction → OutPoint → Bool
spends_as_coinbase tx p = is_coinbase tx && spends (get_inputs tx) p

-- Its key and value can be encoded, and the column is there.
abbrev pub IsWritable : (database : Database) → database.Db → Write → Type 0
IsWritable database db (put_utxo q utxo) =
    (database.encodes_key q ≡ true)
    × (database.encodes_value utxo ≡ true)
    × (database.has_utxos_column db ≡ true)
IsWritable database db (delete_utxo q) =
    (database.encodes_key q ≡ true) × (database.has_utxos_column db ≡ true)

stage_all_of_IsWritable :
    (database : Database) (db : database.Db) (batch : List Write)
    → All (IsWritable database db) batch
    → stage_all database db batch ≡ ok tt
unfolding stage stage_all
stage_all_of_IsWritable database db [] h = refl
stage_all_of_IsWritable database db (put_utxo q utxo ∷ batch) h =
    ground (arith, h.0.0, h.0.1, h.0.2, stage_all_of_IsWritable database db batch h.1)
stage_all_of_IsWritable database db (delete_utxo q ∷ batch) h =
    ground (arith, h.0.0, h.0.1, stage_all_of_IsWritable database db batch h.1)

module _ (enc : Encoding) (height : ℕ) (p : OutPoint) where
  after-transaction_batch :
      (tx : Transaction) (s : UtxoSet)
      → spends_as_coinbase tx p ≡ false
      → after (transaction_batch enc height tx) p (get_utxo p s)
        ≡ get_utxo p (update_from_transaction enc tx height s)
  unfolding transaction_batch after created
  after-transaction_batch tx s n = elim (Bool-cases (is_coinbase tx)) [
    | inl b ↦ ground (
      arith,
      b,
      n,
      after-put_outputs (txid enc tx) (is_coinbase tx) height 0 (get_outputs tx) p (get_utxo p s),
      get_utxo-update_from_transaction enc height tx p s,
    )
    | inr b ↦ ground (
      arith,
      b,
      n,
      after-++ (delete_inputs (get_inputs tx))
          (put_outputs (txid enc tx) (is_coinbase tx) height 0 (get_outputs tx)) p (get_utxo p s),
      after-delete_inputs (get_inputs tx) p (get_utxo p s),
      after-put_outputs (txid enc tx) (is_coinbase tx) height 0 (get_outputs tx) p
          (after (delete_inputs (get_inputs tx)) p (get_utxo p s)),
      get_utxo-update_from_transaction enc height tx p s,
    )
  ]

  after-block_batch :
      (txs : List Transaction) (s : UtxoSet)
      → All (λ tx. spends_as_coinbase tx p ≡ false) txs
      → after (block_batch enc height txs) p (get_utxo p s)
        ≡ get_utxo p (update_each enc height txs s)
  unfolding block_batch update_each after
  after-block_batch [] s n = refl
  after-block_batch (tx ∷ txs) s n =
      after-++ (transaction_batch enc height tx) (block_batch enc height txs) p (get_utxo p s)
      ∙ ap (after (block_batch enc height txs) p) (after-transaction_batch tx s n.0)
      ∙ after-block_batch txs (update_from_transaction enc tx height s) n.1

  -- A database that holds at an outpoint what the set holds there still does after the block is
  -- written to the one and its transactions are applied in turn to the other, at each outpoint that
  -- no coinbase input of the block names; the write of the block fails only where an operation of its
  -- batch cannot be written or the database refuses the batch.
  pub apply_block_to_utxo_set-update_each :
      (database : Database) (db : database.Db) (s : UtxoSet) (block : Block)
      → database.get_cf db p ≡ get_utxo p s
      → All (λ tx. spends_as_coinbase tx p ≡ false) block.transactions
      → ((db' : database.Db) × (apply_block_to_utxo_set database db enc block height ≡ ok db')
          × (database.get_cf db' p ≡ get_utxo p (update_each enc height block.transactions s)))
        ⊎ ((e : ApplyError) × (apply_block_to_utxo_set database db enc block height ≡ err e)
            × ((¬ All (IsWritable database db) (block_batch enc height block.transactions))
                ⊎ (database.write db (block_batch enc height block.transactions) ≡ none)))
  unfolding apply_block_to_utxo_set apply_batch
  apply_block_to_utxo_set-update_each database db s block e n =
      let batch = block_batch enc height block.transactions in
      elim (Result-cases (stage_all database db batch)) [
        | inr (f, k) ↦ inr (
          f,
          ground (arith, k),
          inl (λ w. absurd (cc (sym (stage_all_of_IsWritable database db batch w) ∙ k))),
        )
        | inl (u, k) ↦ elim (Option-cases (database.write db batch)) [
          | inl w ↦ inr (write_error, ground (arith, k, w), inr w)
          | inr (db', w) ↦ inl (
            db',
            ground (arith, k, w),
            database.get_cf-write db db' batch p w
                ∙ ap (after batch p) e
                ∙ after-block_batch block.transactions s n,
          )
        ]
      ]

-- The set as a database.
unfoldable pub write_all : UtxoSet → List Write → UtxoSet
write_all s [] = s
write_all s (put_utxo q utxo ∷ batch) = write_all (add_utxo q utxo s) batch
write_all s (delete_utxo q ∷ batch) = write_all (remove_utxo q s) batch

pub get_utxo-write_all :
    (s : UtxoSet) (batch : List Write) (p : OutPoint)
    → get_utxo p (write_all s batch) ≡ after batch p (get_utxo p s)
unfolding write_all after get_utxo add_utxo remove_utxo outpoint_key
get_utxo-write_all s [] p = refl
get_utxo-write_all s (put_utxo q utxo ∷ batch) p =
    get_utxo-write_all (add_utxo q utxo s) batch p ∙ ap (after batch p) (get-insert q p utxo s)
get_utxo-write_all s (delete_utxo q ∷ batch) p =
    get_utxo-write_all (remove_utxo q s) batch p ∙ ap (after batch p) (get-remove q p s)

some_eq : {s t : UtxoSet} → some s ≡ some t → s ≡ t
some_eq e = cc e

pub get_utxo-written :
    (s t : UtxoSet) (batch : List Write) (p : OutPoint)
    → some (write_all s batch) ≡ some t
    → get_utxo p t ≡ after batch p (get_utxo p s)
get_utxo-written s t batch p w = ap (get_utxo p) (sym (some_eq w)) ∙ get_utxo-write_all s batch p

abbrev pub set_database : Database
set_database = record {
  Db = UtxoSet;
  encodes_key = λ p. true;
  encodes_value = λ utxo. true;
  has_utxos_column = λ s. true;
  get_cf = λ s p. get_utxo p s;
  write = λ s batch. some (write_all s batch);
  get_cf-write = get_utxo-written;
}
