-- ===== src/Validation/Masternode.antt =====
-- A masternode that leaves and one that reports (rusty-consensus/src/validation.rs).
use rusty_coin.Common.{ℕ, ◌+◌, ◌%◌, Bool, false, ◌&&◌, none, some, leb}
use rusty_coin.Common.HashMap.{HashMap, get, insert}
use rusty_coin.Common.Result.{ok, ◌>>=◌, ◌>>◌}
use rusty_coin.Common.Words.{Bytes, u32_mod, u64_mod}
use rusty_coin.Types.Payload.{MasternodeId, MasternodeIdentity, TransactionSignature}
use rusty_coin.Types.Transaction.{Transaction, masternode_register}
use rusty_coin.Validation.Context.{
  Checked, MasternodeEntry, ValidationContext, masternode_key, require, reject, ok_or,
  masternode_not_found, masternode_inactive, invalid_proof_of_service, invalid_transaction_type,
  invalid_masternode_deregistration,
}

module _ (c : ValidationContext) where
  -- `PublicKey::from_bytes`, `Signature::from_bytes` and `verify_signature`.
  unfoldable pub verifies : Bytes → Bytes → Bytes → Bool
  verifies public_key message signature =
      c.prims.public_key_ok public_key
      && c.prims.signature_ok signature
      && c.prims.verify public_key message signature

  -- The first argument is the text of the height and the identifier, which `format!` makes.
  unfoldable pub verify_masternode_signature :
      (ℕ → MasternodeId → Bytes) → MasternodeId → ℕ → Bytes → Bool
  unfolding verifies
  verify_masternode_signature message masternode_id block_height signature =
      elim (get masternode_id c.masternode_list) [
        | none ↦ false
        | some masternode ↦
            verifies masternode.identity.operator_public_key (message block_height masternode_id)
              signature
      ]

  -- The list that is left.
  unfoldable pub validate_masternode_heartbeat :
      (ℕ → MasternodeId → Bytes)
      → MasternodeId
      → ℕ
      → Bytes
      → Checked (HashMap MasternodeId MasternodeEntry)
  unfolding verify_masternode_signature
  validate_masternode_heartbeat message masternode_id block_height signature = do
    masternode ← ok_or (get masternode_id c.masternode_list) masternode_not_found
    require
        (leb block_height
          ((masternode.last_successful_pose_height + c.params.max_inactivity_blocks) % u64_mod))
        masternode_inactive
    require (verify_masternode_signature message masternode_id block_height signature)
        invalid_proof_of_service
    ok (
        insert masternode_id
          (record masternode { last_successful_pose_height = block_height % u32_mod })
          c.masternode_list)

  -- The checks of a deregistration. The first argument is bincode's encoding of the transaction with
  -- its signature set to zeros.
  unfoldable pub check_deregistration :
      Bytes → MasternodeIdentity → TransactionSignature → Checked (Unit {0})
  check_deregistration message identity signature = do
    masternode ←
        ok_or (get (record { outpoint = identity.collateral_outpoint }) c.masternode_list)
          masternode_not_found
    require (c.prims.public_key_ok masternode.identity.operator_public_key)
        (invalid_masternode_deregistration "Invalid public key bytes")
    require (c.prims.signature_ok signature.bytes)
        (invalid_masternode_deregistration "Invalid signature bytes")
    require (c.prims.verify masternode.identity.operator_public_key message signature.bytes)
        (invalid_masternode_deregistration "Invalid signature")

  unfoldable pub validate_masternode_deregistration :
      (Transaction → Bytes) → Transaction → Checked (Unit {0})
  unfolding check_deregistration
  validate_masternode_deregistration message (masternode_register identity signature l i o w) =
      check_deregistration (message (masternode_register identity signature l i o w)) identity
        signature
  validate_masternode_deregistration message _ =
      reject (invalid_transaction_type "Expected MasternodeRegister transaction for deregistration")
