-- ===== src/Slashing/Ticket.antt =====
-- The slashing transactions, the proofs they carry and the checks of the proofs
-- (rusty-consensus/src/pos_slashing.rs).
use Prim.Native.String.{String}
use rusty_coin.Common.{
  ℕ, ◌+◌, ◌-◌, ◌%◌, Bool, true, false, not, List, [], ◌∷◌, ◌++◌, Option, none, some, length,
  replicate, leb, ltb, if◌then◌else◌,
}
use rusty_coin.Common.Result.{Result, ok, err, ◌>>◌}
use rusty_coin.Common.Words.{Bytes, u32_mod, u64_mod}
use rusty_coin.Types.Tx.{Hash, TxInput, TxOutput, Hash-discrete}
use rusty_coin.Types.Payload.{
  TicketNonParticipationProof, TicketMaliciousProof, TicketMaliciousActionType, double_voting,
  invalid_vote, invalid_signature, WitnessSignature,
}
use rusty_coin.Types.Transaction.{
  Transaction, ticket_slash_non_participation, ticket_slash_malicious,
}

-- The variants of `PosSlashingError` that the functions give.
pub data PosSlashingError : Type 0 where
  invalid_proof : (message : String) → PosSlashingError

abbrev pub Slashed : Type 0 → Type 0
Slashed A = Result PosSlashingError A

abbrev pub require : Bool → String → Slashed (Unit {0})
require true message = ok tt
require false message = err (invalid_proof message)

abbrev pub same_hash : Hash → Hash → Bool
same_hash a b = elim (Hash-discrete a b) [ yes p ↦ true | no p ↦ false ]

abbrev pub is_zero_hash : Hash → Bool
is_zero_hash hash = same_hash hash (replicate 32 0)

abbrev pub max_pos_slashing_proof_size : ℕ
max_pos_slashing_proof_size = 4096

abbrev pub pos_slashing_cooldown_blocks : ℕ
pos_slashing_cooldown_blocks = 10080

abbrev pub grace_period_blocks : ℕ
grace_period_blocks = 10

abbrev pub slash_forgiveness_period : ℕ
slash_forgiveness_period = 100

-- A data output with the bytes of `rust`.
abbrev pub burn_script : Bytes
burn_script = 0x6a ∷ 0x04 ∷ 0x72 ∷ 0x75 ∷ 0x73 ∷ 0x74 ∷ []

unfoldable pub create_ticket_burn_output : ℕ → TxOutput
create_ticket_burn_output amount = record {
  value = amount;
  script_pubkey = burn_script;
  memo = none;
}

-- The burned part, then what remains unless it is nothing.
unfoldable pub slashing_outputs : ℕ → ℕ → Bytes → List TxOutput
unfolding create_ticket_burn_output
slashing_outputs slashed_amount ticket_value script_pubkey =
    create_ticket_burn_output slashed_amount
    ∷ (if ltb 0 (ticket_value - slashed_amount)
        then record {
          value = ticket_value - slashed_amount;
          script_pubkey = script_pubkey;
          memo = none;
        }
          ∷ []
        else [])

-- `(block_height + POS_SLASHING_COOLDOWN_BLOCKS) as u32`
abbrev pub cooldown : ℕ → ℕ
cooldown block_height = ((block_height + pos_slashing_cooldown_blocks) % u64_mod) % u32_mod

-- The argument before the proof is the product with 0.01 in `f64`, cut to a `u64`. The proof can be
-- serialised.
unfoldable pub create_ticket_non_participation_slashing_transaction :
    (ℕ → ℕ) → Hash → TicketNonParticipationProof → TxInput → ℕ → Bytes → ℕ → Slashed Transaction
unfolding slashing_outputs
create_ticket_non_participation_slashing_transaction one_percent ticket_id proof ticket_input
      ticket_value script_pubkey block_height =
    do
      require (leb (length proof.witness_signatures) max_pos_slashing_proof_size)
          "Proof data too large"
      ok (
          ticket_slash_non_participation 1 (ticket_input ∷ [])
            (slashing_outputs (one_percent ticket_value) ticket_value script_pubkey) ticket_id proof
            (cooldown block_height) 0 [])

-- The first argument is the product with 1.0 in `f64`, cut to a `u64`.
unfoldable pub create_ticket_malicious_behavior_slashing_transaction :
    (ℕ → ℕ) → Hash → TicketMaliciousProof → TxInput → ℕ → Bytes → ℕ → Slashed Transaction
unfolding create_ticket_burn_output
create_ticket_malicious_behavior_slashing_transaction whole ticket_id proof ticket_input
      ticket_value script_pubkey block_height =
    do
      require (leb (length proof.proof_data) max_pos_slashing_proof_size) "Proof data too large"
      ok (
          ticket_slash_malicious 1 (ticket_input ∷ [])
            (create_ticket_burn_output (whole ticket_value) ∷ []) ticket_id proof
            (cooldown block_height) 0 [])

unfoldable pub validate_ticket_non_participation_slashing :
    Hash → TicketNonParticipationProof → ℕ → Slashed (Unit {0})
validate_ticket_non_participation_slashing ticket_id proof current_height = do
  require (leb ((proof.detection_block_height + grace_period_blocks) % u64_mod) current_height)
      "Grace period not yet passed"
  require (same_hash proof.ticket_id ticket_id) "Ticket ID mismatch"
  require (ltb 0 (length proof.selection_proof)) "Selection proof is empty"
  require (ltb 0 (length proof.witness_signatures)) "No witness signatures provided"
  require (not (is_zero_hash proof.target_block_hash)) "Invalid target block hash"

-- How much proof data each action needs.
unfoldable pub least_proof : TicketMaliciousActionType → ℕ
least_proof double_voting = 128
least_proof invalid_vote = 64
least_proof invalid_signature = 64

abbrev pub least_proof_message : TicketMaliciousActionType → String
least_proof_message double_voting = "Insufficient proof data for double voting"
least_proof_message invalid_vote = "Insufficient proof data for invalid vote"
least_proof_message invalid_signature = "Insufficient proof data for invalid signature"

unfoldable pub validate_ticket_malicious_behavior_slashing :
    Hash → TicketMaliciousProof → ℕ → Slashed (Unit {0})
unfolding least_proof
validate_ticket_malicious_behavior_slashing ticket_id proof current_height = do
  require (same_hash proof.ticket_id ticket_id) "Ticket ID mismatch"
  require (ltb 0 (length proof.proof_data)) "Proof data is empty"
  require (ltb 0 (length proof.witness_signatures)) "No witness signatures provided"
  require (leb (least_proof proof.malicious_action_type) (length proof.proof_data))
      (least_proof_message proof.malicious_action_type)

-- A vote is its signature and the block hash that it is for.
unfoldable pub create_double_voting_proof :
    Hash → Bytes × Hash → Bytes × Hash → ℕ → List WitnessSignature → Slashed TicketMaliciousProof
create_double_voting_proof ticket_id vote1 vote2 detection_height witness_signatures = do
  require (not (same_hash vote1.1 vote2.1)) "Votes are not conflicting"
  ok (record {
    ticket_id = ticket_id;
    detection_block_height = detection_height;
    malicious_action_type = double_voting;
    proof_data = vote1.0 ++ (vote1.1 ++ (vote2.0 ++ vote2.1));
    witness_signatures = witness_signatures;
  })

unfoldable pub create_non_participation_proof :
    Hash → Hash → ℕ → Bytes → ℕ → List WitnessSignature → Slashed TicketNonParticipationProof
create_non_participation_proof ticket_id target_block_hash selection_height selection_proof
      detection_height witness_signatures =
    do
      require (ltb 0 (length selection_proof)) "Selection proof is empty"
      require (not (is_zero_hash target_block_hash)) "Invalid target block hash"
      require (ltb selection_height detection_height)
          "Detection height must be after selection height"
      ok (record {
        ticket_id = ticket_id;
        detection_block_height = detection_height;
        target_block_hash = target_block_hash;
        selection_block_height = selection_height;
        selection_proof = selection_proof;
        witness_signatures = witness_signatures;
      })

unfoldable pub should_slash_for_repeated_non_participation : ℕ → Option ℕ → ℕ → Bool
should_slash_for_repeated_non_participation non_participation_count last_slash_height
      current_height =
    elim last_slash_height [
      | none ↦ leb 3 non_participation_count
      | some last_slash ↦
          if ltb current_height ((last_slash + slash_forgiveness_period) % u64_mod)
          then leb 5 non_participation_count
          else leb 3 non_participation_count
    ]
