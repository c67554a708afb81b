-- ===== src/Validation/Context.antt =====
-- The errors of the validation, the state that it reads, and the checks that every function of
-- rusty-consensus/src/validation.rs is made of.
use Prim.Native.String.{String}
use rusty_coin.Common.{
  ℕ, ◌+◌, Bool, true, false, Option, none, some, ltb, if◌then◌else◌, ◌≡◌, refl, ◌<◌, arith, ◌⊎◌,
  inl, inr,
}
use rusty_coin.Common.HashMap.{HashMap, Key}
use rusty_coin.Common.Result.{Result, ok, err, ◌>>=◌}
use rusty_coin.Common.Words.{Bytes, u64_mod}
use rusty_coin.Types.Tx.{OutPoint, Utxo, OutPoint-discrete}
use rusty_coin.Types.Payload.{MasternodeId, MasternodeIdentity}
use rusty_coin.Types.Transaction.{Transaction}
use rusty_coin.Types.Block.{Block, BlockHeader, Encoding}
use rusty_coin.Script.Context.{Primitives}
use rusty_coin.Tickets.Pool.{LiveTicketsPool}
use rusty_coin.Types.Tx.{Hash}

-- The variants of `ConsensusError` that the validation gives. The numbers that a formatted message
-- ends with are left out.
pub data ConsensusError : Type 0 where
  empty_transaction coinbase_has_inputs non_coinbase_has_no_inputs duplicate_input : ConsensusError
  missing_tx_input coinbase_not_mature invalid_script_sig negative_fee : ConsensusError
  transaction_locktime_not_met no_outputs invalid_sequence spending_more_than_inputs :
      ConsensusError
  missing_previous_block invalid_previous_block_hash invalid_merkle_root : ConsensusError
  timestamp_too_far_in_future timestamp_too_old invalid_proof_of_work : ConsensusError
  no_coinbase_transaction invalid_coinbase_input duplicate_transaction : ConsensusError
  no_ticket_votes duplicate_ticket_vote invalid_ticket_id invalid_block_hash : ConsensusError
  invalid_signature insufficient_ticket_votes invalid_ticket_status expired_ticket : ConsensusError
  invalid_vote_type masternode_not_found masternode_inactive : ConsensusError
  invalid_proof_of_service invalid_state_root merkle_root_mismatch : ConsensusError
  serialization_error database_error : ConsensusError
  transaction_too_large block_too_large insufficient_fee : (size limit : ℕ) → ConsensusError
  dust_output output_value_zero unsupported_version : (value : ℕ) → ConsensusError
  invalid_proof invalid_script invalid_coinbase invalid_lock_time :
      (message : String) → ConsensusError
  masternode_error invalid_transaction_type governance_error : (message : String) → ConsensusError
  invalid_slashing_transaction : (message : String) → ConsensusError
  invalid_masternode_deregistration : (message : String) → ConsensusError

-- How a check stops: with an error, or with the panic of a script, which ends the process.
pub data Stop : Type 0 where
  rejected : ConsensusError → Stop
  panicked : Stop

abbrev pub Checked : Type 0 → Type 0
Checked A = Result Stop A

abbrev pub reject : {A : Type 0} → ConsensusError → Checked A
reject e = err (rejected e)

-- `if !test { return Err(e) }`
abbrev pub require : Bool → ConsensusError → Checked (Unit {0})
require true e = ok tt
require false e = reject e

-- `o.ok_or(e)?`
abbrev pub ok_or : {A : Type 0} → Option A → ConsensusError → Checked A
ok_or none e = reject e
ok_or (some a) e = ok a

-- `a.checked_add(b).ok_or(e)?` on `u64`.
abbrev pub checked_add : ℕ → ℕ → ConsensusError → Checked ℕ
checked_add a b e = if ltb (a + b) u64_mod then ok (a + b) else reject e

-- The fields of `ConsensusParams` that the validation reads.
pub record ConsensusParams : Type 0 where
  pub max_block_size : ℕ
  pub max_tx_size : ℕ
  pub block_reward : ℕ
  pub coinbase_maturity : ℕ
  pub dust_limit : ℕ
  pub masternode_collateral_amount : ℕ
  pub max_inactivity_blocks : ℕ

-- The fields of `MasternodeEntry` (rusty-shared-types/src/masternode.rs) that the validation reads.
pub record MasternodeEntry : Type 0 where
  pub identity : MasternodeIdentity
  pub last_successful_pose_height : ℕ
  pub pose_failure_count : ℕ
  pub collateral_amount : ℕ

unfoldable pub MasternodeId-discrete : Discrete MasternodeId
unfolding OutPoint-discrete
MasternodeId-discrete = hlevel OutPoint-discrete

instance unfoldable pub masternode_key : Key MasternodeId
unfolding MasternodeId-discrete
masternode_key = record { eq = MasternodeId-discrete }

-- What the validation calls beside the repository's consensus code: the crates of the script
-- engine, bincode's sizes and encodings, the proof-of-work hash of a header's bytes and a nonce as a
-- number, the standard library's `trim`, the products with a percentage in `f64`, and the database
-- behind `UtxoSet::get_utxo`, which may fail. `header_hash` and `block_hash` are BLAKE3 of the bytes.
pub record ValidationContext : Type 0 where
  pub prims : Primitives
  pub enc : Encoding
  pub tx_size : Transaction → Option ℕ
  pub block_size : Block → Option ℕ
  pub serialize_header : BlockHeader → Bytes
  pub serialize_block : Block → Bytes
  pub oxide_hash : Bytes → ℕ → ℕ
  pub trims_to_empty : String → Bool
  pub non_participation_share : ℕ → ℕ
  pub malicious_share : ℕ → ℕ
  pub get_utxo : OutPoint → Checked (Option Utxo)
  pub params : ConsensusParams
  pub ticket_voting : LiveTicketsPool
  pub masternode_list : HashMap MasternodeId MasternodeEntry

-- `BlockHeader::hash`
abbrev pub header_hash : ValidationContext → BlockHeader → Hash
header_hash c header = c.enc.blake3 (c.serialize_header header)

-- `Block::hash`
abbrev pub block_hash : ValidationContext → Block → Hash
block_hash c block = c.enc.blake3 (c.serialize_block block)

-- What a successful check says.
pub require->>= :
    {A : Type 0} (b : Bool) (e : ConsensusError) (f : Unit {0} → Checked A) {a : A}
    → (require b e >>= f) ≡ ok a
    → (b ≡ true) × (f tt ≡ ok a)
require->>= true e f h = (refl, h)
require->>= false e f h = cc

pub ok_or-eq-ok :
    {A : Type 0} (o : Option A) (e : ConsensusError) {a : A} → ok_or o e ≡ ok a → o ≡ some a
ok_or-eq-ok none e h = cc
ok_or-eq-ok (some a) e h = cc

pub checked_add-eq-ok :
    (a b : ℕ) (e : ConsensusError) {n : ℕ} → checked_add a b e ≡ ok n → (n ≡ a + b) × (n < u64_mod)
checked_add-eq-ok a b e h = ground arith

pub if-eq-ok :
    {A : Type 0} (b : Bool) (r s : Checked A) {a : A}
    → (if b then r else s) ≡ ok a
    → ((b ≡ true) × (r ≡ ok a)) ⊎ ((b ≡ false) × (s ≡ ok a))
if-eq-ok true r s h = inl (refl, h)
if-eq-ok false r s h = inr (refl, h)
