-- ===== src/Validation/Tests.antt =====
-- The validation's theorems at a block with a coinbase transaction and a payment. The parent has the
-- same transactions, and the set has the outpoint that the coinbase input names.
use rusty_coin.Common.{
  ℕ, zero, suc, ◌+◌, ◌/◌, ◌%◌, ◌≤◌, ◌<◌, ◌≡◌, ◌↔◌, ◌⊎◌, refl, arith, Bool, true, false, List, [],
  ◌∷◌, Option, none, some, All, ite,
}
use rusty_coin.Common.HashMap.{get}
use rusty_coin.Common.Result.{ok, err}
use rusty_coin.Common.Words.{u64_mod}
use rusty_coin.Types.Tx.{Hash, OutPoint, TxInput, TxOutput, Utxo, from_outpoint, new_input}
use rusty_coin.Types.Payload.{TicketNonParticipationProof}
use rusty_coin.Types.Transaction.{
  Transaction, standard, coinbase, ticket_slash_non_participation, is_coinbase, get_inputs,
  get_outputs,
}
use rusty_coin.Types.Block.{Block, BlockHeader, TicketVote, Encoding}
use rusty_coin.Script.Context.{Primitives}
use rusty_coin.Utxo.Set.{UtxoSet, get_utxo}
use rusty_coin.Utxo.Proofs.Sequential.{update_each}
use rusty_coin.Tickets.Pool.{Ticket, LiveTicketsPool, live}
use rusty_coin.Slashing.Ticket.{
  create_ticket_non_participation_slashing_transaction, slashing_outputs,
}
use rusty_coin.Validation.Context.{ValidationContext, block_hash, header_hash}
use rusty_coin.Validation.Inputs.{validate_transaction}
use rusty_coin.Validation.Structure.{null_outpoint, validate_transaction_structure}
use rusty_coin.Validation.Header.{validate_block_header}
use rusty_coin.Validation.Transactions.{validate_transactions}
use rusty_coin.Validation.Votes.{validate_pos_votes}
use rusty_coin.Validation.Block.{validate_block, validate_block_comprehensive}
use rusty_coin.Validation.Apply.{ApplyError, block_batch, apply_block_to_utxo_set}
use rusty_coin.Validation.Proofs.Sums.{value_at}
use rusty_coin.Validation.Proofs.Spending.{IsSpendable}
use rusty_coin.Validation.Proofs.Accepted.{
  times_spent_in, SpendsSpendable, validate_transactions-times_spent,
}
use rusty_coin.Validation.Proofs.Coinbase.{validate_transaction_structure-validate_transaction}
use rusty_coin.Validation.Proofs.Rewards.{
  created_value, spent_value_in, after_coinbase, validate_block_comprehensive-created_value,
  validate_block_comprehensive-null_outpoint,
}
use rusty_coin.Validation.Proofs.Chain.{
  merkle_root, Follows, validate_block_header_iff, validate_block_comprehensive-merkle_root,
  validate_block-hashes,
}
use rusty_coin.Validation.Proofs.Quorum.{IsQuorum, validate_pos_votes_iff}
use rusty_coin.Validation.Proofs.Slashed.{validate_transaction_structure-create_slashing}
use rusty_coin.Validation.Proofs.Applied.{
  set_database, IsWritable, spends_as_coinbase, apply_block_to_utxo_set-update_each,
}

abbrev pay : ℕ → TxOutput
pay value = record { value = value; script_pubkey = 0x51 ∷ []; memo = none }

abbrev mined : OutPoint
mined = record { txid = 1 ∷ []; vout = 0 }

abbrev utxo_set : UtxoSet
utxo_set =
    (mined, record { output = pay 5000; is_coinbase = false; creation_height = 3 })
    ∷ (null_outpoint, record { output = pay 0; is_coinbase = false; creation_height = 0 })
    ∷ []

abbrev input_of : OutPoint → TxInput
input_of outpoint = record {
  prev_out_hash = outpoint.txid;
  prev_out_index = outpoint.vout;
  previous_output = outpoint;
  script_sig = [];
  sequence = 0;
  witness = [];
}

abbrev reward : Transaction
reward = coinbase 1 (input_of null_outpoint ∷ []) (pay 5000000500 ∷ []) 0 []

abbrev payment : Transaction
payment = standard 1 (input_of mined ∷ []) (pay 3000 ∷ pay 1500 ∷ []) 0 500 []

-- A transaction is written as its first output's value.
abbrev first_value : List TxOutput → ℕ
first_value [] = 0
first_value (output ∷ outputs) = output.value

abbrev primitives : Primitives
primitives = record {
  sha256 = λ bytes. bytes;
  sha1 = λ bytes. bytes;
  ripemd160 = λ bytes. bytes;
  blake3 = λ bytes. bytes;
  public_key_ok = λ key. true;
  signature_ok = λ signature. true;
  verify = λ key message signature. true;
  serialize = λ tx. some (first_value (get_outputs tx) ∷ []);
}

abbrev ticket_of : ℕ → Hash × Ticket
ticket_of n = (n ∷ [], record { id = n ∷ []; pubkey = []; height = 2; value = 10; status = live })

abbrev tickets : LiveTicketsPool
tickets = ticket_of 1 ∷ ticket_of 2 ∷ ticket_of 3 ∷ []

abbrev context : ValidationContext
context = record {
  prims = primitives;
  enc = record { serialize = λ tx. first_value (get_outputs tx) ∷ []; blake3 = λ bytes. 9 ∷ bytes };
  tx_size = λ tx. some 200;
  block_size = λ block. some 600;
  serialize_header = λ header. header.height ∷ [];
  serialize_block = λ block. block.header.height ∷ [];
  oxide_hash = λ bytes nonce. nonce;
  trims_to_empty = λ title. false;
  non_participation_share = λ value. value;
  malicious_share = λ value. value;
  get_utxo = λ p. ok (get_utxo p utxo_set);
  params = record {
    max_block_size = 1000;
    max_tx_size = 300;
    block_reward = 5000000000;
    coinbase_maturity = 100;
    dust_limit = 500;
    masternode_collateral_amount = 26000;
    max_inactivity_blocks = 10;
  };
  ticket_voting = tickets;
  masternode_list = [];
}

abbrev vote_of : ℕ → TicketVote
vote_of n = record { ticket_id = n ∷ []; block_hash = 8 ∷ []; vote = 0; signature = [] }

abbrev votes : List TicketVote
votes = vote_of 1 ∷ vote_of 2 ∷ vote_of 3 ∷ []

abbrev block_at : ℕ → ℕ → Block
block_at height timestamp = record {
  header = record {
    version = 1;
    height = height;
    previous_block_hash = 9 ∷ 4 ∷ [];
    merkle_root = 9 ∷ 9 ∷ 5000000500 ∷ 9 ∷ 3000 ∷ [];
    state_root = 7 ∷ [];
    timestamp = timestamp;
    difficulty_target = 0x1d00ffff;
    nonce = 12;
  };
  ticket_votes = votes;
  transactions = reward ∷ payment ∷ [];
}

abbrev parent : Block
parent = block_at 4 1000

abbrev block : Block
block = block_at 5 1600

block_accepted : validate_block_comprehensive context block (parent ∷ []) 1600 ≡ ok tt
unfolding validate_block_comprehensive rusty_coin.Types.Tx.Hash-discrete
    rusty_coin.Common.ℕ_discrete rusty_coin.Merkle.Tree.calculate_merkle_root_from_transactions
    rusty_coin.Merkle.Tree.calculate_merkle_root_from_hashes
    rusty_coin.Merkle.Tree.calculate_merkle_root rusty_coin.Merkle.Tree.reduce
    rusty_coin.Merkle.Tree.next_level rusty_coin.Merkle.Tree.hash_combined
    rusty_coin.Types.Block.txid get_outputs is_coinbase get_inputs
    rusty_coin.Types.Tx.OutPoint-discrete rusty_coin.Validation.Inputs.find_utxo get_utxo
    rusty_coin.Common.HashMap.get rusty_coin.Types.Tx.outpoint_key
    rusty_coin.Types.Transaction.get_lock_time rusty_coin.Script.Execute.execute
    rusty_coin.Script.Execute.run rusty_coin.Script.Execute.round
    rusty_coin.Script.Execute.instruction rusty_coin.Script.Execute.dispatch
    rusty_coin.Script.Opcode.from_byte rusty_coin.Script.Execute.operate
    rusty_coin.Script.Engine.is_false rusty_coin.Validation.Outputs.validate_script_pubkey
    rusty_coin.Types.Tx.hash_key
block_accepted = refl

header_accepted : validate_block_header context block.header parent 1600 ≡ ok tt
unfolding validate_block_header rusty_coin.Types.Tx.Hash-discrete rusty_coin.Common.ℕ_discrete
    rusty_coin.Merkle.Tree.calculate_merkle_root_from_transactions
    rusty_coin.Merkle.Tree.calculate_merkle_root_from_hashes
    rusty_coin.Merkle.Tree.calculate_merkle_root rusty_coin.Merkle.Tree.reduce
    rusty_coin.Merkle.Tree.next_level rusty_coin.Merkle.Tree.hash_combined
    rusty_coin.Types.Block.txid get_outputs
header_accepted = refl

transactions_accepted : validate_transactions context block.transactions 5 1600 ≡ ok tt
unfolding validate_transactions is_coinbase get_outputs get_inputs
    rusty_coin.Types.Tx.OutPoint-discrete rusty_coin.Common.ℕ_discrete
    rusty_coin.Validation.Inputs.find_utxo get_utxo get rusty_coin.Types.Tx.outpoint_key
    rusty_coin.Types.Transaction.get_lock_time rusty_coin.Script.Execute.execute
    rusty_coin.Script.Execute.run rusty_coin.Script.Execute.round
    rusty_coin.Script.Execute.instruction rusty_coin.Script.Execute.dispatch
    rusty_coin.Script.Opcode.from_byte rusty_coin.Script.Execute.operate
    rusty_coin.Script.Engine.is_false
transactions_accepted = refl

validated : validate_block context block (parent ∷ []) 1600 ≡ ok tt
unfolding validate_block rusty_coin.Types.Tx.Hash-discrete rusty_coin.Common.ℕ_discrete
    rusty_coin.Merkle.Tree.calculate_merkle_root_from_transactions
    rusty_coin.Merkle.Tree.calculate_merkle_root_from_hashes
    rusty_coin.Merkle.Tree.calculate_merkle_root rusty_coin.Merkle.Tree.reduce
    rusty_coin.Merkle.Tree.next_level rusty_coin.Merkle.Tree.hash_combined
    rusty_coin.Types.Block.txid get_outputs
validated = refl

votes_accepted : validate_pos_votes tickets 5 votes ≡ ok tt
unfolding validate_pos_votes get rusty_coin.Types.Tx.hash_key rusty_coin.Common.ℕ_discrete
votes_accepted = refl

abbrev empty_reward : Transaction
empty_reward = coinbase 1 [] (pay 600 ∷ []) 0 []

empty_reward_accepted : validate_transaction context empty_reward 5 1600 ≡ ok tt
unfolding validate_transaction get_inputs get_outputs is_coinbase
    rusty_coin.Validation.Outputs.validate_script_pubkey
empty_reward_accepted = refl

abbrev missed : TicketNonParticipationProof
missed = record {
  ticket_id = 1 ∷ [];
  detection_block_height = 4;
  target_block_hash = 8 ∷ [];
  selection_block_height = 3;
  selection_proof = 1 ∷ [];
  witness_signatures = [];
}

abbrev slashing : Transaction
slashing =
    ticket_slash_non_participation 1 (input_of mined ∷ []) (slashing_outputs 50 5000 (0x51 ∷ []))
      (1 ∷ []) missed 10085 0 []

slashing_created :
    create_ticket_non_participation_slashing_transaction
      (λ value. value / 100)
      (1 ∷ [])
      missed
      (input_of mined)
      5000
      (0x51 ∷ [])
      5
    ≡ ok slashing
unfolding create_ticket_non_participation_slashing_transaction
slashing_created = refl

mined_value : value_at context mined ≡ 5000
unfolding value_at rusty_coin.Validation.Inputs.find_utxo get_utxo get
    rusty_coin.Types.Tx.outpoint_key rusty_coin.Common.ℕ_discrete
mined_value = refl

no_coinbase_spends : All (λ tx. spends_as_coinbase tx mined ≡ false) block.transactions
unfolding is_coinbase rusty_coin.Utxo.Set.spends get_inputs rusty_coin.Types.Tx.OutPoint-discrete
    rusty_coin.Common.ℕ_discrete
no_coinbase_spends = (refl, (refl, tt))

validate_block_header_iff_example :
    (validate_block_header context block.header parent 1600 ≡ ok tt)
    ↔ Follows context block.header parent 1600
validate_block_header_iff_example = validate_block_header_iff context block.header parent 1600

validate_block-hashes_example :
    (block.header.height ≡ (parent.header.height + 1) % u64_mod)
    × (merkle_root context block ≡ merkle_root context parent)
    × (header_hash context parent.header ≡ block_hash context parent)
validate_block-hashes_example = validate_block-hashes context block parent [] 1600 validated

validate_block_comprehensive-merkle_root_example :
    merkle_root context block ≡ merkle_root context parent
validate_block_comprehensive-merkle_root_example =
    validate_block_comprehensive-merkle_root context block parent [] 1600 block_accepted

validate_block_comprehensive-created_value_example :
    created_value block.transactions
    ≤ 5000000000 + spent_value_in context (after_coinbase block.transactions)
validate_block_comprehensive-created_value_example =
    validate_block_comprehensive-created_value context block (parent ∷ []) 1600 block_accepted

validate_block_comprehensive-null_outpoint_example : IsSpendable context 5 null_outpoint
validate_block_comprehensive-null_outpoint_example =
    validate_block_comprehensive-null_outpoint context block (parent ∷ []) 1600 block_accepted

validate_transactions-times_spent_example :
    ((p : OutPoint) → times_spent_in p block.transactions ≤ 1)
    × All (SpendsSpendable context 5) block.transactions
validate_transactions-times_spent_example =
    validate_transactions-times_spent context 5 1600 block.transactions transactions_accepted

validate_transaction_structure-validate_transaction_example :
    ¬ (validate_transaction_structure context empty_reward ≡ ok tt)
unfolding is_coinbase
validate_transaction_structure-validate_transaction_example =
    validate_transaction_structure-validate_transaction context empty_reward 5 1600 refl
      empty_reward_accepted

validate_pos_votes_iff_example :
    (validate_pos_votes tickets 5 votes ≡ ok tt) ↔ IsQuorum tickets 5 votes
validate_pos_votes_iff_example = validate_pos_votes_iff tickets 5 votes

validate_transaction_structure-create_slashing_example :
    ¬ (validate_transaction_structure context slashing ≡ ok tt)
validate_transaction_structure-create_slashing_example =
    validate_transaction_structure-create_slashing context (λ value. value / 100) (1 ∷ []) missed
      (input_of mined) 5000 (0x51 ∷ []) 5 slashing 199 (omega arith) slashing_created mined_value
      refl

apply_block_to_utxo_set-update_each_example :
    ((s : UtxoSet) × (apply_block_to_utxo_set set_database utxo_set context.enc block 5 ≡ ok s)
      × (get_utxo mined s ≡ get_utxo mined (update_each context.enc 5 block.transactions utxo_set)))
    ⊎ ((e : ApplyError) × (apply_block_to_utxo_set set_database utxo_set context.enc block 5
          ≡ err e)
        × ((¬ All (IsWritable set_database utxo_set) (block_batch context.enc 5 block.transactions))
            ⊎ (set_database.write utxo_set (block_batch context.enc 5 block.transactions) ≡ none)))
apply_block_to_utxo_set-update_each_example =
    apply_block_to_utxo_set-update_each context.enc 5 mined set_database utxo_set utxo_set block
      refl no_coinbase_spends
