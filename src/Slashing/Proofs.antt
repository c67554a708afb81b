-- ===== src/Slashing/Proofs.antt =====
-- What the slashing checks accept, and what the slashing transactions pay.
use rusty_coin.Common.{
  ℕ, ◌+◌, ◌<◌, ◌≤◌, ◌≡◌, ◌≢◌, ◌↔◌, refl, arith, true, false, List, [], ◌∷◌, ◌++◌, length, leb,
  Bool-cases, inl, inr,
}
use mathlib.Core.Path.{subst}
use rusty_coin.Common.Result.{ok, ◌>>=◌}
use rusty_coin.Common.Words.{Bytes, u64_mod}
use rusty_coin.Types.Tx.{Hash, TxInput, Hash-discrete}
use rusty_coin.Types.Payload.{TicketNonParticipationProof, WitnessSignature}
use rusty_coin.Types.Transaction.{
  Transaction, ticket_slash_non_participation, get_inputs, get_outputs, is_coinbase,
}
use rusty_coin.Utxo.Proofs.Validity.{output_value}
use rusty_coin.Slashing.Ticket.{
  same_hash, grace_period_blocks, slashing_outputs, cooldown, create_ticket_burn_output,
  create_ticket_non_participation_slashing_transaction, least_proof, create_double_voting_proof,
  create_non_participation_proof, validate_ticket_malicious_behavior_slashing,
  validate_ticket_non_participation_slashing, max_pos_slashing_proof_size,
}

same_hash_self : (a : Hash) → same_hash a a ≡ true
same_hash_self a = elim (Hash-discrete a a) [ yes p ↦ ground (arith, p) | no p ↦ ground (arith, p) ]

length-++ :
    (xs bs cs ds : Bytes)
    → length (xs ++ (bs ++ (cs ++ ds))) ≡ length xs + length bs + length cs + length ds
length-++ [] [] [] ds = omega arith
length-++ [] [] (x ∷ cs) ds = omega (arith, length-++ [] [] cs ds)
length-++ [] (x ∷ bs) cs ds = omega (arith, length-++ [] bs cs ds)
length-++ (x ∷ xs) bs cs ds = omega (arith, length-++ xs bs cs ds)

same_hash_iff : (a b : Hash) → (same_hash a b ≡ true) ↔ (a ≡ b)
same_hash_iff a b = elim (Hash-discrete a b) [
  | yes p ↦ ground (arith, p)
  | no p ↦ ground (arith, p)
]

-- Whatever stands for the signatures, and at every height, a proof of double voting that is made of
-- two votes for one ticket is made and then passes its check against a ticket exactly if the votes
-- name different blocks, the signatures and the hashes have 128 bytes or more together, there is a
-- witness, and the two tickets are the same.
pub validate-create_double_voting_proof_iff :
    (ticket_id checked_id : Hash) (vote1 vote2 : Bytes × Hash) (detection_height current_height : ℕ)
    (witness_signatures : List WitnessSignature)
    → ((create_double_voting_proof ticket_id vote1 vote2 detection_height witness_signatures
          >>= λ proof. validate_ticket_malicious_behavior_slashing checked_id proof current_height)
        ≡ ok tt)
      ↔ ((vote1.1 ≢ vote2.1)
          × (128 ≤ length vote1.0 + length vote1.1 + length vote2.0 + length vote2.1)
          × (1 ≤ length witness_signatures)
          × (ticket_id ≡ checked_id))
unfolding create_double_voting_proof validate_ticket_malicious_behavior_slashing least_proof
validate-create_double_voting_proof_iff ticket_id checked_id vote1 vote2 detection_height
      current_height witness_signatures =
    ground (
      arith,
      same_hash_iff ticket_id checked_id,
      same_hash_iff vote1.1 vote2.1,
      length-++ vote1.0 vote1.1 vote2.0 vote2.1,
    )

-- A proof of a missed vote is accepted from the end of the grace period on, where there is a witness.
pub validate-create_non_participation_proof :
    (ticket_id target_block_hash : Hash) (selection_height : ℕ) (selection_proof : Bytes)
    (detection_height current_height : ℕ) (witness_signatures : List WitnessSignature)
    (proof : TicketNonParticipationProof)
    → create_non_participation_proof ticket_id target_block_hash selection_height selection_proof
        detection_height witness_signatures
      ≡ ok proof
    → current_height < u64_mod
    → detection_height + grace_period_blocks ≤ current_height
    → 1 ≤ length witness_signatures
    → validate_ticket_non_participation_slashing ticket_id proof current_height ≡ ok tt
unfolding create_non_participation_proof validate_ticket_non_participation_slashing
validate-create_non_participation_proof ticket_id target_block_hash selection_height selection_proof
      detection_height current_height witness_signatures proof h b g w =
    ground (arith, same_hash_self ticket_id)

-- The transaction that is made where the proof is small enough.
abbrev slashed :
    (ℕ → ℕ) → Hash → TicketNonParticipationProof → TxInput → ℕ → Bytes → ℕ → Transaction
slashed one_percent ticket_id proof ticket_input ticket_value script_pubkey block_height =
    ticket_slash_non_participation 1 (ticket_input ∷ [])
      (slashing_outputs (one_percent ticket_value) ticket_value script_pubkey) ticket_id proof
      (cooldown block_height) 0 []

-- A slashing transaction for a missed vote spends the ticket's output alone and pays the ticket's
-- value out in full, where the slashed part is at most the value.
pub create_ticket_non_participation_slashing_transaction-eq-ok :
    (one_percent : ℕ → ℕ) (ticket_id : Hash) (proof : TicketNonParticipationProof)
    (ticket_input : TxInput) (ticket_value : ℕ) (script_pubkey : Bytes) (block_height : ℕ)
    (tx : Transaction)
    → one_percent ticket_value ≤ ticket_value
    → create_ticket_non_participation_slashing_transaction one_percent ticket_id proof ticket_input
        ticket_value script_pubkey block_height
      ≡ ok tx
    → (get_inputs tx ≡ ticket_input ∷ [])
      × (output_value (get_outputs tx) ≡ ticket_value)
      × (is_coinbase tx ≡ false)
unfolding create_ticket_non_participation_slashing_transaction slashing_outputs output_value
    create_ticket_burn_output get_inputs get_outputs is_coinbase
create_ticket_non_participation_slashing_transaction-eq-ok one_percent ticket_id proof ticket_input
      ticket_value script_pubkey block_height tx b h =
    elim (Bool-cases (leb (length proof.witness_signatures) max_pos_slashing_proof_size)) [
      | inl k ↦
          let e : slashed one_percent ticket_id proof ticket_input ticket_value script_pubkey
                block_height
              ≡ tx =
            ground (arith, k, h) in
          subst
            (λ t.
              (get_inputs t ≡ ticket_input ∷ [])
              × (output_value (get_outputs t) ≡ ticket_value)
              × (is_coinbase t ≡ false))
            e (refl, ground arith, refl)
      | inr k ↦ ground (arith, k)
    ]
