-- ===== src/Utxo/Tests.antt =====
-- The set's theorems at a small chain: a coinbase output of 5000 at height 7, spent at height 200.
use rusty_coin.Common.{
  ℕ, zero, suc, ◌+◌, ◌≡◌, ◌<◌, ◌≤◌, ◌^◌, ◌↔◌, inl, inr, refl, List, [], ◌∷◌, ◌++◌, Bool, true,
  false, Option, none, some, arith, if◌then◌else◌,
}
use rusty_coin.Common.Words.{u64_mod}
use rusty_coin.Types.Tx.{Hash, OutPoint, TxInput, TxOutput, Utxo, new_input}
use rusty_coin.Types.Transaction.{Transaction, standard, coinbase, get_inputs, get_outputs, get_fee}
use rusty_coin.Types.Block.{Block, Encoding, txid}
use rusty_coin.Utxo.Set.{spends, UtxoSet, get_utxo}
use rusty_coin.Utxo.Update.{update_from_transaction, update_from_block}
use rusty_coin.Utxo.Revert.{reverted, dummy_utxo, revert_block}
use rusty_coin.Utxo.Validate.{validate_transaction_comprehensive}
use rusty_coin.Utxo.Proofs.Lookup.{
  or_else, spends_in, created, made, created_in, get_utxo-update_from_block,
}
use rusty_coin.Utxo.Proofs.Sequential.{update_each, update_from_block-update_each}
use rusty_coin.Utxo.Proofs.Validity.{IsValid, output_value, validate_transaction_comprehensive_iff}
use rusty_coin.Utxo.Proofs.Value.{
  supply, from_nothing, supply-update_from_transaction, validate-from_nothing,
}
use rusty_coin.Utxo.Proofs.Reverting.{revert_block-update_from_block, revert_block-forgets_spent}

-- A transaction is written as its number of outputs, its first output's value and its lock time.
abbrev first_value : List TxOutput → ℕ
first_value [] = 0
first_value (output ∷ outputs) = output.value

abbrev encoding : Encoding
encoding = record {
  serialize = λ tx. first_value (get_outputs tx) ∷ [];
  blake3 = λ bytes. 9 ∷ bytes;
}

abbrev pay : ℕ → TxOutput
pay value = record { value = value; script_pubkey = 0x51 ∷ []; memo = none }

abbrev mined : OutPoint
mined = record { txid = 1 ∷ []; vout = 0 }

abbrev mined_utxo : Utxo
mined_utxo = record { output = pay 5000; is_coinbase = true; creation_height = 7 }

abbrev chain : UtxoSet
chain = (mined, mined_utxo) ∷ []

abbrev spending : TxInput
spending = record {
  prev_out_hash = 1 ∷ [];
  prev_out_index = 0;
  previous_output = mined;
  script_sig = [];
  sequence = 0;
  witness = [];
}

abbrev payment : Transaction
payment = standard 1 (spending ∷ []) (pay 3000 ∷ pay 1500 ∷ []) 150 500 []

abbrev paid : OutPoint
paid = record { txid = 9 ∷ 3000 ∷ []; vout = 1 }

abbrev block : Block
block = record {
  header = record {
    version = 1;
    height = 200;
    previous_block_hash = [];
    merkle_root = [];
    state_root = [];
    timestamp = 0;
    difficulty_target = 0;
    nonce = 0;
  };
  ticket_votes = [];
  transactions = payment ∷ [];
}

payment_accepted : validate_transaction_comprehensive chain payment 200 100 500 ≡ true
unfolding validate_transaction_comprehensive rusty_coin.Utxo.Validate.sum_inputs get_inputs get_utxo
    rusty_coin.Common.HashMap.get rusty_coin.Types.Tx.outpoint_key rusty_coin.Common.ℕ_discrete
    rusty_coin.Utxo.Validate.contains rusty_coin.Utxo.Validate.is_immature
    rusty_coin.Utxo.Validate.is_locked rusty_coin.Types.Transaction.get_lock_time
    rusty_coin.Utxo.Validate.sum_outputs get_outputs get_fee
payment_accepted = refl

payment_immature : validate_transaction_comprehensive chain payment 106 100 500 ≡ false
unfolding validate_transaction_comprehensive rusty_coin.Utxo.Validate.sum_inputs get_inputs get_utxo
    rusty_coin.Common.HashMap.get rusty_coin.Types.Tx.outpoint_key rusty_coin.Common.ℕ_discrete
    rusty_coin.Utxo.Validate.contains rusty_coin.Utxo.Validate.is_immature
payment_immature = refl

payment_dust : validate_transaction_comprehensive chain payment 200 100 1501 ≡ false
unfolding validate_transaction_comprehensive rusty_coin.Utxo.Validate.sum_inputs get_inputs get_utxo
    rusty_coin.Common.HashMap.get rusty_coin.Types.Tx.outpoint_key rusty_coin.Common.ℕ_discrete
    rusty_coin.Utxo.Validate.contains rusty_coin.Utxo.Validate.is_immature
    rusty_coin.Utxo.Validate.is_locked rusty_coin.Types.Transaction.get_lock_time
    rusty_coin.Utxo.Validate.sum_outputs get_outputs
payment_dust = refl

payment_value : output_value (get_outputs payment) + get_fee payment < u64_mod
unfolding output_value get_outputs get_fee
payment_value = omega arith

paid_not_spent : spends_in block.transactions paid ≡ false
unfolding spends_in spends get_inputs rusty_coin.Types.Tx.OutPoint-discrete
    rusty_coin.Common.ℕ_discrete
paid_not_spent = refl

paid_new : get_utxo paid chain ≡ none
unfolding get_utxo rusty_coin.Common.HashMap.get rusty_coin.Types.Tx.outpoint_key
    rusty_coin.Common.ℕ_discrete
paid_new = refl

mined_spent : spends_in block.transactions mined ≡ true
unfolding spends_in spends get_inputs rusty_coin.Types.Tx.OutPoint-discrete
    rusty_coin.Common.ℕ_discrete
mined_spent = refl

mined_not_created : created_in encoding 200 block.transactions mined ≡ none
unfolding created_in created made txid get_outputs rusty_coin.Types.Tx.OutPoint-discrete
    rusty_coin.Common.ℕ_discrete
mined_not_created = refl

validate_transaction_comprehensive_iff_example :
    (validate_transaction_comprehensive chain payment 200 100 500 ≡ true)
    ↔ IsValid chain payment 200 100 500
validate_transaction_comprehensive_iff_example =
    validate_transaction_comprehensive_iff chain payment 200 100 500

supply-update_from_transaction_example :
    supply (update_from_transaction encoding payment 200 chain) + get_fee payment ≤ supply chain
unfolding get_fee
supply-update_from_transaction_example =
    supply-update_from_transaction encoding chain payment 200 100 500 payment_accepted payment_value

validate-from_nothing_example :
    validate_transaction_comprehensive chain
      (standard 1 (spending ∷ []) ((pay 3000 ∷ pay 1500 ∷ []) ++ from_nothing []) 150 500 [])
      200
      100
      500
    ≡ true
validate-from_nothing_example =
    validate-from_nothing chain 1 150 500 200 100 500 (spending ∷ []) (pay 3000 ∷ pay 1500 ∷ []) []
      [] (omega arith) payment_accepted

get_utxo-update_from_block_example :
    get_utxo paid (update_from_block encoding block 200 chain)
    ≡ or_else
        (created_in encoding 200 block.transactions paid)
        (if spends_in block.transactions paid then none else get_utxo paid chain)
get_utxo-update_from_block_example = get_utxo-update_from_block encoding 200 block paid chain

update_from_block-update_each_example :
    get_utxo paid (update_from_block encoding block 200 chain)
    ≡ get_utxo paid (update_each encoding 200 block.transactions chain)
update_from_block-update_each_example =
    update_from_block-update_each encoding 200 paid block chain (inr paid_not_spent)

revert_block-update_from_block_example :
    (s : UtxoSet) × (revert_block encoding block (update_from_block encoding block 200 chain)
      ≡ reverted s)
    × (get_utxo paid s ≡ get_utxo paid chain)
revert_block-update_from_block_example =
    revert_block-update_from_block encoding 200 paid block chain paid_not_spent (inr paid_new)

revert_block-forgets_spent_example :
    (s : UtxoSet) × (revert_block encoding block (update_from_block encoding block 200 chain)
      ≡ reverted s)
    × (get_utxo mined s ≡ some dummy_utxo)
revert_block-forgets_spent_example =
    revert_block-forgets_spent encoding 200 mined block chain mined_spent mined_not_created
