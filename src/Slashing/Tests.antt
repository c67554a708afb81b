-- ===== src/Slashing/Tests.antt =====
-- The slashing theorems at a small ticket.
use rusty_coin.Common.{ℕ, ◌+◌, ◌≤◌, ◌≡◌, ◌≢◌, ◌↔◌, refl, List, [], ◌∷◌, ◌++◌, replicate, arith}
use rusty_coin.Common.Result.{◌>>=◌, ok}
use rusty_coin.Common.Words.{Bytes}
use rusty_coin.Types.Tx.{Hash}
use rusty_coin.Types.Payload.{
  TicketNonParticipationProof, TicketMaliciousProof, WitnessSignature, double_voting,
}
use rusty_coin.Slashing.Ticket.{
  create_double_voting_proof, create_non_participation_proof,
  validate_ticket_malicious_behavior_slashing, validate_ticket_non_participation_slashing,
}
use rusty_coin.Slashing.Proofs.{
  validate-create_double_voting_proof_iff, validate-create_non_participation_proof,
}

abbrev witnessed : List WitnessSignature
witnessed =
    record {
      masternode_id = record { outpoint = record { txid = 1 ∷ []; vout = 0 } };
      signature = [];
    }
    ∷ []

abbrev vote_for : ℕ → Bytes × Hash
vote_for block = (replicate 64 7, replicate 32 block)

abbrev double_vote : TicketMaliciousProof
double_vote = record {
  ticket_id = 1 ∷ [];
  detection_block_height = 9;
  malicious_action_type = double_voting;
  proof_data = replicate 64 7 ++ (replicate 32 1 ++ (replicate 64 7 ++ replicate 32 2));
  witness_signatures = witnessed;
}

double_vote_created :
    create_double_voting_proof (1 ∷ []) (vote_for 1) (vote_for 2) 9 witnessed ≡ ok double_vote
unfolding create_double_voting_proof rusty_coin.Types.Tx.Hash-discrete rusty_coin.Common.ℕ_discrete
double_vote_created = refl

abbrev missed_vote : TicketNonParticipationProof
missed_vote = record {
  ticket_id = 1 ∷ [];
  detection_block_height = 9;
  target_block_hash = 8 ∷ [];
  selection_block_height = 7;
  selection_proof = 1 ∷ [];
  witness_signatures = witnessed;
}

missed_vote_created :
    create_non_participation_proof (1 ∷ []) (8 ∷ []) 7 (1 ∷ []) 9 witnessed ≡ ok missed_vote
unfolding create_non_participation_proof rusty_coin.Types.Tx.Hash-discrete
    rusty_coin.Common.ℕ_discrete
missed_vote_created = refl

validate-create_double_voting_proof_iff_example :
    ((create_double_voting_proof (1 ∷ []) (vote_for 1) (vote_for 2) 9 witnessed >>= λ proof.
    validate_ticket_malicious_behavior_slashing (1 ∷ []) proof 20)
      ≡ ok tt)
    ↔ (((vote_for 1).1 ≢ (vote_for 2).1)
        × (128 ≤ 64 + 32 + 64 + 32)
        × (1 ≤ 1)
        × (◌≡◌ {A = Hash} (1 ∷ []) (1 ∷ [])))
validate-create_double_voting_proof_iff_example =
    validate-create_double_voting_proof_iff (1 ∷ []) (1 ∷ []) (vote_for 1) (vote_for 2) 9 20
      witnessed

validate-create_non_participation_proof_example :
    validate_ticket_non_participation_slashing (1 ∷ []) missed_vote 20 ≡ ok tt
validate-create_non_participation_proof_example =
    validate-create_non_participation_proof (1 ∷ []) (8 ∷ []) 7 (1 ∷ []) 9 20 witnessed missed_vote
      missed_vote_created (omega arith) (omega arith) (omega arith)
