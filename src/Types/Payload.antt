-- ===== src/Types/Payload.antt =====
-- The records that the special transactions carry (rusty-shared-types/src/governance.rs,
-- masternode.rs and lib.rs).
use Prim.Native.String.{String}
use rusty_coin.Common.{ℕ, Option, List}
use rusty_coin.Common.Words.{Bytes}
use rusty_coin.Types.Tx.{Hash, OutPoint, TxInput, TxOutput}

-- `type PublicKey = [u8; 32]`
abbrev pub PublicKey : Type 0
PublicKey = Bytes

-- The newtype `MasternodeID(OutPoint)`.
pub record MasternodeId : Type 0 where
  pub outpoint : OutPoint

pub record TransactionSignature : Type 0 where
  pub bytes : Bytes

pub data ProposalType : Type 0 where
  protocol_upgrade parameter_change treasury_spend bug_fix community_fund : ProposalType

pub record GovernanceProposal : Type 0 where
  pub proposal_id : Hash
  pub proposer_address : PublicKey
  pub proposal_type : ProposalType
  pub start_block_height : ℕ
  pub end_block_height : ℕ
  pub title : String
  pub description_hash : Hash
  pub code_change_hash : Option Hash
  pub target_parameter : Option String
  pub new_value : Option String
  pub bug_description : Option String
  pub recipient_address : Option PublicKey
  pub amount : Option ℕ
  pub project_description : Option String
  pub proposer_signature : TransactionSignature
  pub inputs : List TxInput
  pub outputs : List TxOutput
  pub lock_time : ℕ
  pub witness : List Bytes
  pub fee : ℕ

pub record ApprovalProof : Type 0 where
  pub total_voting_power : ℕ
  pub yes_votes : ℕ
  pub no_votes : ℕ
  pub abstain_votes : ℕ
  pub approval_percentage_bp : ℕ
  pub required_threshold_bp : ℕ
  pub voting_end_height : ℕ
  pub voting_state_hash : Hash

pub data VoterType : Type 0 where
  pos_ticket masternode : VoterType

pub data VoteChoice : Type 0 where
  yes_vote no_vote abstain : VoteChoice

pub record GovernanceVote : Type 0 where
  pub proposal_id : Hash
  pub voter_type : VoterType
  pub voter_id : PublicKey
  pub vote_choice : VoteChoice
  pub voter_signature : TransactionSignature
  pub inputs : List TxInput
  pub outputs : List TxOutput
  pub lock_time : ℕ
  pub witness : List Bytes
  pub fee : ℕ

pub record MasternodeIdentity : Type 0 where
  pub collateral_outpoint : OutPoint
  pub operator_public_key : Bytes
  pub network_address : String
  pub collateral_ownership_public_key : Bytes
  pub dkg_public_key : Option Bytes
  pub supported_dkg_versions : List ℕ

pub data SlashingReason : Type 0 where
  masternode_non_response double_signing invalid_block_proposal : SlashingReason
  invalid_transaction governance_violation : SlashingReason

pub record MasternodeSlashTx : Type 0 where
  pub version : ℕ
  pub inputs : List TxInput
  pub outputs : List TxOutput
  pub masternode_id : MasternodeId
  pub reason : SlashingReason
  pub proof : Bytes
  pub lock_time : ℕ
  pub fee : ℕ
  pub witness : List Bytes

pub record WitnessSignature : Type 0 where
  pub masternode_id : MasternodeId
  pub signature : Bytes

pub record TicketNonParticipationProof : Type 0 where
  pub ticket_id : Bytes
  pub detection_block_height : ℕ
  pub target_block_hash : Hash
  pub selection_block_height : ℕ
  pub selection_proof : Bytes
  pub witness_signatures : List WitnessSignature

pub data TicketMaliciousActionType : Type 0 where
  double_voting invalid_vote invalid_signature : TicketMaliciousActionType

pub record TicketMaliciousProof : Type 0 where
  pub ticket_id : Bytes
  pub detection_block_height : ℕ
  pub malicious_action_type : TicketMaliciousActionType
  pub proof_data : Bytes
  pub witness_signatures : List WitnessSignature
