-- ===== src/Validation/Payload.antt =====
-- The checks that depend on the type of a transaction (rusty-consensus/src/validation.rs).
use Prim.Native.String as String
use rusty_coin.Common.{
  ℕ, ◌-◌, Bool, true, false, not, ◌||◌, List, [], ◌∷◌, none, some, length, leb, ltb, ◌==◌,
  if◌then◌else◌,
}
use rusty_coin.Common.HashMap.{get}
use rusty_coin.Common.Result.{ok, err, ◌>>=◌, ◌>>◌}
use rusty_coin.Common.Words.{Bytes}
use rusty_coin.Types.Tx.{Hash, TxInput, TxOutput, OutPoint-discrete, Hash-discrete}
use rusty_coin.Types.Payload.{
  GovernanceProposal, MasternodeSlashTx, SlashingReason, masternode_non_response, double_signing,
  invalid_block_proposal, invalid_transaction, governance_violation,
}
use rusty_coin.Types.Transaction.{
  Transaction, masternode_register, masternode_collateral, governance_proposal, activate_proposal,
  ticket_purchase, ticket_redemption, masternode_slash_tx, ticket_slash_non_participation,
  ticket_slash_malicious,
}
use rusty_coin.Script.Validate.{is_empty}
use rusty_coin.Tickets.Pool.{TicketStatus, pending, live, voted, expired, revoked, get_ticket}
use rusty_coin.Slashing.Ticket as Ticket
use rusty_coin.Slashing.Ticket.{
  PosSlashingError, Slashed, burn_script, is_zero_hash, validate_ticket_non_participation_slashing,
  validate_ticket_malicious_behavior_slashing,
}
use rusty_coin.Validation.Context.{
  Checked, ConsensusParams, MasternodeEntry, ValidationContext, masternode_key, require, reject,
  ok_or, checked_add, invalid_ticket_id, invalid_ticket_status, duplicate_ticket_vote,
  invalid_proof, invalid_transaction_type, masternode_error, masternode_not_found, governance_error,
  invalid_slashing_transaction,
}
use rusty_coin.Validation.Outputs.{validate_masternode_collateral_script}

abbrev pub same_bytes : Bytes → Bytes → Bool
same_bytes a b = elim (Hash-discrete a b) [ yes p ↦ true | no p ↦ false ]

-- The loop over the outputs: whether one is the collateral, and the sum of the values.
unfoldable pub find_collateral : ConsensusParams → Bool → ℕ → List TxOutput → Checked Bool
unfolding validate_masternode_collateral_script
find_collateral params found total [] = ok found
find_collateral params found total (output ∷ outputs) = do
  (if output.value == params.masternode_collateral_amount
      then validate_masternode_collateral_script output.script_pubkey
      else ok tt)
  total' ← checked_add total output.value (invalid_proof "Output value too large")
  find_collateral params (found || output.value == params.masternode_collateral_amount) total'
      outputs

-- On a registration; it is called on no other transaction.
unfoldable pub validate_masternode_registration :
    ConsensusParams → List TxInput → List TxOutput → Checked (Unit {0})
unfolding find_collateral
validate_masternode_registration params inputs outputs = do
  require (not (is_empty inputs))
      (masternode_error "Masternode registration transaction must have inputs")
  found ← find_collateral params false 0 outputs
  require found
      (masternode_error "Masternode registration transaction must have a collateral output")

-- `MASTERNODE_COLLATERAL_AMOUNT` of rusty-core/src/constants.rs.
abbrev pub masternode_collateral_constant : ℕ
masternode_collateral_constant = 10000

-- `MASTERNODE_COLLATERAL_AMOUNT` of rusty-core/src/protocol_constants.rs, 26,000 coins.
abbrev pub protocol_collateral_amount : ℕ
protocol_collateral_amount = 2600000000000

-- `MAX_POSE_FAILURES` of rusty-core/src/protocol_constants.rs.
abbrev pub max_pose_failures : ℕ
max_pose_failures = 3

unfoldable pub check_collateral : ℕ → List TxOutput → Checked (Unit {0})
check_collateral collateral_amount outputs = do
  require (collateral_amount == masternode_collateral_constant)
      (invalid_transaction_type "Masternode collateral amount must be 10000 satoshis")
  require (length outputs == 1)
      (invalid_transaction_type "Masternode collateral transaction must have exactly one output")
  elim outputs [
    | [] ↦ ok tt
    | output ∷ _ ↦ require (output.value == collateral_amount) (
        invalid_transaction_type
          "Masternode collateral output value does not match collateral amount")
  ]

-- The ticket may be redeemed.
abbrev pub is_redeemable : TicketStatus → Bool
is_redeemable pending = false
is_redeemable live = false
is_redeemable voted = false
is_redeemable expired = true
is_redeemable revoked = true

-- `MasternodeNonResponse`; the other reasons are those of malicious behaviour.
abbrev pub is_non_response : SlashingReason → Bool
is_non_response masternode_non_response = true
is_non_response double_signing = false
is_non_response invalid_block_proposal = false
is_non_response invalid_transaction = false
is_non_response governance_violation = false

-- `a.abs_diff(b)`
abbrev pub abs_diff : ℕ → ℕ → ℕ
abs_diff a b = if ltb a b then b - a else a - b

-- `map_err` of a slashing error to the consensus error, whose message is the error as it is printed.
abbrev pub map_slashing_error : Slashed (Unit {0}) → Checked (Unit {0})
map_slashing_error (ok a) = ok a
map_slashing_error (err (Ticket.invalid_proof message)) =
    reject (invalid_slashing_transaction (String.◌++◌ "Invalid proof data: " message))

unfoldable pub check_proposal :
    (c : ValidationContext) → ℕ → GovernanceProposal → Checked (Unit {0})
check_proposal c height proposal = do
  require (not (c.trims_to_empty proposal.title))
      (governance_error "Governance proposal must have a non-empty title")
  require (not (is_zero_hash proposal.description_hash))
      (governance_error "Governance proposal must have a valid description hash")
  require (leb proposal.start_block_height proposal.end_block_height)
      (governance_error "Governance proposal end_block_height must be >= start_block_height")
  require (leb height proposal.start_block_height)
      (governance_error "Governance proposal start_block_height must be >= current block height")

module _ (c : ValidationContext) where
  unfoldable pub check_purchase : Hash → ℕ → Bytes → List TxOutput → Checked (Unit {0})
  unfolding get_ticket
  check_purchase ticket_id locked_amount ticket_address [] = reject invalid_ticket_id
  check_purchase ticket_id locked_amount ticket_address (output ∷ outputs) = do
    require (output.value == locked_amount)
        (invalid_transaction_type "Ticket purchase output value does not match locked amount")
    require (same_bytes output.script_pubkey ticket_address) (
        invalid_transaction_type
          "Ticket purchase output script_pubkey does not match ticket address")
    elim (get_ticket c.ticket_voting ticket_id) [
      | none ↦ ok tt
      | some ticket ↦ reject duplicate_ticket_vote
    ]

  unfoldable pub check_redemption : Hash → Checked (Unit {0})
  unfolding get_ticket
  check_redemption ticket_id = do
    ticket ← ok_or (get_ticket c.ticket_voting ticket_id) invalid_ticket_id
    require (is_redeemable ticket.status) invalid_ticket_status

  -- What must be slashed: a share of the collateral, or of the constant where none is recorded.
  unfoldable pub expected_slashed : SlashingReason → MasternodeEntry → ℕ
  expected_slashed reason masternode =
      let collateral_value =
        if ltb 0 masternode.collateral_amount
        then masternode.collateral_amount
        else protocol_collateral_amount in
      if is_non_response reason
      then c.non_participation_share collateral_value
      else c.malicious_share collateral_value

  -- The reason fits the masternode's record or the proof.
  unfoldable pub check_reason : MasternodeSlashTx → MasternodeEntry → Checked (Unit {0})
  check_reason tx masternode =
      if is_non_response tx.reason
      then require (leb max_pose_failures masternode.pose_failure_count)
          (invalid_slashing_transaction "Masternode failure count is below threshold")
      else require (not (is_empty tx.proof))
          (invalid_slashing_transaction "Malicious behavior slashing requires proof data")

  -- The checks from the input and the burn output on.
  unfoldable pub check_slashed : MasternodeSlashTx → TxInput → TxOutput → Checked (Unit {0})
  unfolding expected_slashed check_reason
  check_slashed tx input output = do
    require (same_bytes output.script_pubkey burn_script)
        (invalid_slashing_transaction "First output must be a burn output")
    masternode ← ok_or (get tx.masternode_id c.masternode_list) masternode_not_found
    require
        (elim (OutPoint-discrete input.previous_output masternode.identity.collateral_outpoint) [
          | yes p ↦ true
          | no p ↦ false
        ])
        (invalid_slashing_transaction
          "Slashing transaction input does not match masternode collateral")
    check_reason tx masternode
    require (leb (abs_diff output.value (expected_slashed tx.reason masternode)) 1)
        (invalid_slashing_transaction "Slashing amount mismatch")

  unfoldable pub check_masternode_slash : MasternodeSlashTx → Checked (Unit {0})
  unfolding check_slashed
  check_masternode_slash tx = do
    require (leb (length tx.proof) 4096) (invalid_slashing_transaction "Proof data too large")
    elim tx.inputs [
      | [] ↦
          reject (invalid_slashing_transaction "Slashing transaction must have exactly one input")
      | _ ∷ _ ∷ _ ↦
          reject (invalid_slashing_transaction "Slashing transaction must have exactly one input")
      | input ∷ [] ↦ elim tx.outputs [
        | [] ↦
            reject
              (invalid_slashing_transaction "Slashing transaction must have at least one output")
        | output ∷ _ ↦ check_slashed tx input output
      ]
    ]

  -- The match on the transaction in `validate_transactions`.
  unfoldable pub check_payload : ℕ → Transaction → Checked (Unit {0})
  unfolding validate_masternode_registration check_collateral check_purchase check_redemption
      check_proposal check_masternode_slash validate_ticket_non_participation_slashing
      validate_ticket_malicious_behavior_slashing
  check_payload height (masternode_register _ _ _ inputs outputs _) =
      validate_masternode_registration c.params inputs outputs
  check_payload height (masternode_collateral _ _ outputs _ collateral_amount _ _) =
      check_collateral collateral_amount outputs
  check_payload height (ticket_purchase _ _ outputs ticket_id locked_amount _ _ ticket_address _) =
      check_purchase ticket_id locked_amount ticket_address outputs
  check_payload height (ticket_redemption _ _ _ ticket_id _ _ _) = check_redemption ticket_id
  check_payload height (governance_proposal proposal) = check_proposal c height proposal
  check_payload height (activate_proposal _ _ activation_block_height _ _ _ _ _ _) =
      require (ltb height activation_block_height)
        (governance_error "Proposal activation block height must be > current block height")
  check_payload height (ticket_slash_non_participation _ _ _ ticket_id proof _ _ _) =
      map_slashing_error (validate_ticket_non_participation_slashing ticket_id proof height)
  check_payload height (ticket_slash_malicious _ _ _ ticket_id proof _ _ _) =
      map_slashing_error (validate_ticket_malicious_behavior_slashing ticket_id proof height)
  check_payload height (masternode_slash_tx tx) = check_masternode_slash tx
  check_payload height _ = ok tt
