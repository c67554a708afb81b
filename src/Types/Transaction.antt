-- ===== src/Types/Transaction.antt =====
-- The transaction enum and its accessors (rusty-shared-types/src/lib.rs). A struct variant is a
-- constructor with the fields in the source's order.
use rusty_coin.Common.{ℕ, zero, Bool, true, false, List}
use rusty_coin.Common.Words.{Bytes}
use rusty_coin.Types.Tx.{Hash, TxInput, TxOutput}
use rusty_coin.Types.Payload.{
  TransactionSignature, GovernanceProposal, ApprovalProof, GovernanceVote, MasternodeIdentity,
  MasternodeSlashTx, TicketNonParticipationProof, TicketMaliciousProof,
}

pub data Transaction : Type 0 where
  standard :
      (version : ℕ) (inputs : List TxInput) (outputs : List TxOutput) (lock_time : ℕ) (fee : ℕ)
      (witness : List Bytes)
      → Transaction
  coinbase :
      (version : ℕ) (inputs : List TxInput) (outputs : List TxOutput) (lock_time : ℕ)
      (witness : List Bytes)
      → Transaction
  masternode_register :
      (masternode_identity : MasternodeIdentity) (signature : TransactionSignature) (lock_time : ℕ)
      (inputs : List TxInput) (outputs : List TxOutput) (witness : List Bytes)
      → Transaction
  masternode_collateral :
      (version : ℕ) (inputs : List TxInput) (outputs : List TxOutput)
      (masternode_identity : MasternodeIdentity) (collateral_amount : ℕ) (lock_time : ℕ)
      (witness : List Bytes)
      → Transaction
  governance_proposal : (proposal : GovernanceProposal) → Transaction
  governance_vote : (vote : GovernanceVote) → Transaction
  activate_proposal :
      (version : ℕ) (proposal_id : Hash) (activation_block_height : ℕ)
      (approval_proof : ApprovalProof) (activator_signature : TransactionSignature)
      (inputs : List TxInput) (outputs : List TxOutput) (lock_time : ℕ) (witness : List Bytes)
      → Transaction
  ticket_purchase :
      (version : ℕ) (inputs : List TxInput) (outputs : List TxOutput) (ticket_id : Hash)
      (locked_amount : ℕ) (lock_time : ℕ) (fee : ℕ) (ticket_address : Bytes) (witness : List Bytes)
      → Transaction
  ticket_redemption :
      (version : ℕ) (inputs : List TxInput) (outputs : List TxOutput) (ticket_id : Hash)
      (lock_time : ℕ) (fee : ℕ) (witness : List Bytes)
      → Transaction
  masternode_slash_tx : (tx : MasternodeSlashTx) → Transaction
  ticket_slash_non_participation :
      (version : ℕ) (inputs : List TxInput) (outputs : List TxOutput) (ticket_id : Hash)
      (proof : TicketNonParticipationProof) (lock_time : ℕ) (fee : ℕ) (witness : List Bytes)
      → Transaction
  ticket_slash_malicious :
      (version : ℕ) (inputs : List TxInput) (outputs : List TxOutput) (ticket_id : Hash)
      (proof : TicketMaliciousProof) (lock_time : ℕ) (fee : ℕ) (witness : List Bytes)
      → Transaction

unfoldable pub get_inputs : Transaction → List TxInput
get_inputs (standard _ inputs _ _ _ _) = inputs
get_inputs (coinbase _ inputs _ _ _) = inputs
get_inputs (masternode_register _ _ _ inputs _ _) = inputs
get_inputs (masternode_collateral _ inputs _ _ _ _ _) = inputs
get_inputs (governance_proposal proposal) = proposal.inputs
get_inputs (governance_vote vote) = vote.inputs
get_inputs (activate_proposal _ _ _ _ _ inputs _ _ _) = inputs
get_inputs (ticket_purchase _ inputs _ _ _ _ _ _ _) = inputs
get_inputs (ticket_redemption _ inputs _ _ _ _ _) = inputs
get_inputs (masternode_slash_tx tx) = tx.inputs
get_inputs (ticket_slash_non_participation _ inputs _ _ _ _ _ _) = inputs
get_inputs (ticket_slash_malicious _ inputs _ _ _ _ _ _) = inputs

unfoldable pub get_outputs : Transaction → List TxOutput
get_outputs (standard _ _ outputs _ _ _) = outputs
get_outputs (coinbase _ _ outputs _ _) = outputs
get_outputs (masternode_register _ _ _ _ outputs _) = outputs
get_outputs (masternode_collateral _ _ outputs _ _ _ _) = outputs
get_outputs (governance_proposal proposal) = proposal.outputs
get_outputs (governance_vote vote) = vote.outputs
get_outputs (activate_proposal _ _ _ _ _ _ outputs _ _) = outputs
get_outputs (ticket_purchase _ _ outputs _ _ _ _ _ _) = outputs
get_outputs (ticket_redemption _ _ outputs _ _ _ _) = outputs
get_outputs (masternode_slash_tx tx) = tx.outputs
get_outputs (ticket_slash_non_participation _ _ outputs _ _ _ _ _) = outputs
get_outputs (ticket_slash_malicious _ _ outputs _ _ _ _ _) = outputs

unfoldable pub get_lock_time : Transaction → ℕ
get_lock_time (standard _ _ _ lock_time _ _) = lock_time
get_lock_time (coinbase _ _ _ lock_time _) = lock_time
get_lock_time (masternode_register _ _ lock_time _ _ _) = lock_time
get_lock_time (masternode_collateral _ _ _ _ _ lock_time _) = lock_time
get_lock_time (governance_proposal proposal) = proposal.lock_time
get_lock_time (governance_vote vote) = vote.lock_time
get_lock_time (activate_proposal _ _ _ _ _ _ _ lock_time _) = lock_time
get_lock_time (ticket_purchase _ _ _ _ _ lock_time _ _ _) = lock_time
get_lock_time (ticket_redemption _ _ _ _ lock_time _ _) = lock_time
get_lock_time (masternode_slash_tx tx) = tx.lock_time
get_lock_time (ticket_slash_non_participation _ _ _ _ _ lock_time _ _) = lock_time
get_lock_time (ticket_slash_malicious _ _ _ _ _ lock_time _ _) = lock_time

unfoldable pub get_fee : Transaction → ℕ
get_fee (standard _ _ _ _ fee _) = fee
get_fee (coinbase _ _ _ _ _) = zero
get_fee (masternode_register _ _ _ _ _ _) = zero
get_fee (masternode_collateral _ _ _ _ _ _ _) = zero
get_fee (governance_proposal proposal) = proposal.fee
get_fee (governance_vote vote) = vote.fee
get_fee (activate_proposal _ _ _ _ _ _ _ _ _) = zero
get_fee (ticket_purchase _ _ _ _ _ _ fee _ _) = fee
get_fee (ticket_redemption _ _ _ _ _ fee _) = fee
get_fee (masternode_slash_tx tx) = tx.fee
get_fee (ticket_slash_non_participation _ _ _ _ _ _ fee _) = fee
get_fee (ticket_slash_malicious _ _ _ _ _ _ fee _) = fee

unfoldable pub is_coinbase : Transaction → Bool
is_coinbase (coinbase _ _ _ _ _) = true
is_coinbase _ = false
