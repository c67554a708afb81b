-- ===== src/Sidechain/Tests.antt =====
-- A federation of two members, an update of it, and a peg-in of 500 that needs six confirmations.
use rusty_coin.Common.{
  ℕ, zero, suc, ◌+◌, ◌%◌, ◌≤◌, ◌<◌, ◌≡◌, ◌⊎◌, Bool, true, false, List, [], ◌∷◌, Option, none, some,
  refl, arith, length, replicate,
}
use rusty_coin.Common.HashMap.{get, insert, remove}
use rusty_coin.Common.Result.{ok, err}
use rusty_coin.Common.Words.{Bytes}
use rusty_coin.Types.Tx.{Hash, hash_key}
use rusty_coin.Types.Payload.{MasternodeId, parameter_change}
use rusty_coin.Governance.Proposals.{ActiveProposals}
use rusty_coin.Sidechain.Signature.{
  FederationSignature, ThresholdCrypto, count_signers, is_signer_selected, parse_public_key,
  verify_federation_signature_with_public_keys,
}
use rusty_coin.Sidechain.Federation.{FederationEpoch, new_epoch}
use rusty_coin.Sidechain.Integrator.{
  FederationUpdateProposal, propose_federation_update, with_mainchain_governance,
  FederationIntegrator, new_integrator, initialize_sidechain_federation, apply_pending_updates,
  ready_updates, current_federation,
}
use rusty_coin.Sidechain.Peg.{
  PegInRequest, completed, TwoWayPegManager, new_peg_manager, with_mainchain_utxo_set,
  initiate_peg_in, confirm_peg_transaction, complete_peg_transaction, get_peg_transaction,
  peg_in_transaction, insert_pending,
}
use rusty_coin.Sidechain.Proofs.Lifecycle
use rusty_coin.Sidechain.Proofs.Refinement.{Moves, Reach-Step-Moves, initiate_peg_in-completes}
use rusty_coin.Sidechain.Proofs.Reachable
use rusty_coin.Sidechain.Proofs.Reachable.{Reach-current_federation, Reach-apply_pending_updates}
use rusty_coin.Sidechain.Proofs.Signers.{verify_federation_signature-first}

-- A key is its bytes, and every signature verifies.
abbrev trusting : ThresholdCrypto
trusting = record {
  PublicKey = Bytes;
  Signature = Bytes;
  public_key_from_bytes = λ bytes. some bytes;
  signature_from_bytes = λ bytes. some bytes;
  verify = λ key signature message. true;
}

-- Three signers, the members 0, 2 and 9.
abbrev signature : FederationSignature
signature = record {
  signature = 1 ∷ [];
  signer_bitmap = 0b10100000 ∷ 0b01000000 ∷ [];
  threshold = 2;
  epoch = 1;
  message_hash = [];
}

three_signers : count_signers signature ≡ 3
unfolding count_signers
three_signers = refl

abbrev request : PegInRequest
request = record {
  mainchain_tx_hash = [];
  amount = 500;
  sidechain_recipient = 3 ∷ [];
  sidechain_id = 8 ∷ [];
  mainchain_confirm_height = 1000;
  merkle_proof = [];
  federation_signatures = signature ∷ [];
}

abbrev watching : TwoWayPegManager
watching = with_mainchain_utxo_set (new_peg_manager 6) []

abbrev id : Hash
id = 4 ∷ []

abbrev waiting : TwoWayPegManager
waiting = insert_pending id (peg_in_transaction request id 77) watching

accepted : initiate_peg_in trusting watching request id 77 ≡ ok (id, waiting)
unfolding initiate_peg_in with_mainchain_utxo_set new_peg_manager
accepted = refl

unused : get_peg_transaction watching id ≡ none
unfolding get_peg_transaction get with_mainchain_utxo_set new_peg_manager
unused = refl

initiate_peg_in-completes_example :
    ((1003 < 1006) × (confirm_peg_transaction waiting id 1003 ≡ err "Insufficient confirmations"))
    ⊎ ((1006 ≤ 1003)
        × ((s : TwoWayPegManager) × ((t : TwoWayPegManager) × (confirm_peg_transaction waiting id
                  1003
                ≡ ok s)
              × (complete_peg_transaction s id ≡ ok t)
              × (get_peg_transaction t id
                  ≡ some (record (peg_in_transaction request id 77) { status = completed })))))
unfolding new_peg_manager with_mainchain_utxo_set
initiate_peg_in-completes_example =
    initiate_peg_in-completes trusting watching waiting request id 77 1003 accepted (omega arith)

Reach-Step-Moves_example :
    Moves 6 (get_peg_transaction watching id) (get_peg_transaction waiting id)
Reach-Step-Moves_example =
    Reach-Step-Moves id (Lifecycle.Reach.next Lifecycle.Reach.start (Lifecycle.Step.utxos []))
      (Lifecycle.Step.in_peg request id 77 unused accepted)

abbrev member : ℕ → MasternodeId
member n = record { outpoint = record { txid = n ∷ []; vout = 0 } }

abbrev federated : FederationIntegrator
federated = record {
  federation_managers =
      (
        8 ∷ [],
        record {
          epochs =
              (8 ∷ [], (1, new_epoch 1 (member 1 ∷ member 2 ∷ []) 2 100 ([] ∷ [] ∷ [])) ∷ []) ∷ [];
          current_epochs = (8 ∷ [], 1) ∷ [];
          epoch_transition_blocks = 1000;
        },
      )
      ∷ [];
  pending_updates = [];
  mainchain_governance = none;
}

federating :
    initialize_sidechain_federation new_integrator
      (8 ∷ [])
      (member 1 ∷ member 2 ∷ [])
      2
      ([] ∷ [] ∷ [])
      100
      1000
    ≡ ok federated
unfolding initialize_sidechain_federation insert new_integrator remove get
federating = refl

federated_reached : Reachable.Reach federated
federated_reached = Reachable.Reach.next Reachable.Reach.start (
    Reachable.Step.initialised (8 ∷ []) (member 1 ∷ member 2 ∷ []) 2 ([] ∷ [] ∷ []) 100 1000
      federating)

Reach-current_federation_example :
    (e : FederationEpoch) × (current_federation federated (8 ∷ []) ≡ some e)
    × (e.end_height ≡ none)
    × (0 < e.threshold)
    × (e.threshold ≤ length e.members)
    × (length e.public_keys ≡ length e.members)
unfolding get hash_key rusty_coin.Common.ℕ_discrete
Reach-current_federation_example = Reach-current_federation (8 ∷ []) federated_reached refl

abbrev governance : ActiveProposals
governance = record {
  proposals =
      (
        7 ∷ [],
        (
          record {
            proposal_id = 7 ∷ [];
            proposer_address = [];
            proposal_type = parameter_change;
            start_block_height = 100;
            end_block_height = 150;
            title = "federation";
            description_hash = [];
            code_change_hash = none;
            target_parameter = none;
            new_value = none;
            bug_description = none;
            recipient_address = none;
            amount = none;
            project_description = none;
            proposer_signature = record { bytes = [] };
            inputs = [];
            outputs = [];
            lock_time = 0;
            witness = [];
            fee = 1;
          },
          [],
        ),
      )
      ∷ [];
}

abbrev update : FederationUpdateProposal
update = record {
  sidechain_id = 8 ∷ [];
  new_members = member 3 ∷ [];
  new_threshold = 1;
  new_public_keys = [] ∷ [];
  activation_height = 200;
  governance_proposal_id = 7 ∷ [];
}

abbrev proposed : FederationIntegrator
proposed = record (with_mainchain_governance federated governance) {
  pending_updates = (7 ∷ [], update) ∷ [];
}

proposes :
    propose_federation_update (with_mainchain_governance federated governance) update 150
    ≡ ok proposed
unfolding propose_federation_update with_mainchain_governance get hash_key
    rusty_coin.Common.ℕ_discrete insert remove
proposes = refl

due_at_200 : ready_updates 200 proposed.pending_updates ≡ (7 ∷ []) ∷ []
unfolding ready_updates
due_at_200 = refl

Reach-apply_pending_updates_example :
    ((apply_pending_updates proposed 200).updates ≡ ok (ready_updates 200 proposed.pending_updates))
    × (ready_updates 200 (apply_pending_updates proposed 200).state.pending_updates ≡ [])
Reach-apply_pending_updates_example = Reach-apply_pending_updates 200 (
    Reachable.Reach.next
      (Reachable.Reach.next federated_reached (Reachable.Step.governed governance))
      (Reachable.Step.proposing update 150 proposes))

-- The key of a member, in as many bytes as a key has.
abbrev key : ℕ → Bytes
key n = replicate 48 n

parses : (n : ℕ) → parse_public_key trusting (key n) ≡ ok (key n)
unfolding parse_public_key
parses n = refl

abbrev both : FederationSignature
both = record signature { signer_bitmap = 0b11000000 ∷ []; signature = replicate 96 5 }

both_signed :
    verify_federation_signature_with_public_keys trusting (key 1 ∷ key 2 ∷ []) both [] 2 ≡ ok tt
unfolding verify_federation_signature_with_public_keys rusty_coin.Types.Tx.Hash-discrete
both_signed = refl

verify_federation_signature-first_example :
    verify_federation_signature_with_public_keys trusting (key 1 ∷ key 2 ∷ []) both [] 2
    ≡ verify_federation_signature_with_public_keys trusting (key 1 ∷ key 9 ∷ []) both [] 2
unfolding is_signer_selected
verify_federation_signature-first_example =
    verify_federation_signature-first trusting both [] (key 1) (key 2 ∷ []) (key 9 ∷ []) 2 refl refl
      ((key 2, parses 2), tt) ((key 9, parses 9), tt)
