-- ===== src/Sidechain/Peg.antt =====
-- `TwoWayPegManager` (sidechain/two_way_peg.rs). The random identifier and the time of a request are
-- arguments.
use Prim.Native.String.{String}
use rusty_coin.Common.{
  ℕ, ◌+◌, ◌%◌, max, Bool, true, false, Option, none, some, List, [], ◌∷◌, length, replicate, ltb,
  ◌==◌, if◌then◌else◌,
}
use rusty_coin.Common.HashMap.{HashMap, get, insert, remove, modify, contains_key}
use rusty_coin.Common.Result.{Result, ok, err, ◌>>=◌}
use rusty_coin.Common.Words.{Bytes, u64_mod}
use rusty_coin.Types.Tx.{Hash, hash_key}
use rusty_coin.Utxo.Set.{UtxoSet}
use rusty_coin.Sidechain.Signature.{FederationSignature, ThresholdCrypto, count_signers}
use rusty_coin.Sidechain.Federation.{is_threshold_met}
use rusty_coin.Sidechain.Integrator.{
  FederationIntegrator, current_federation, validate_federation_signature,
}

pub record PegInRequest : Type 0 where
  pub mainchain_tx_hash : Hash
  pub amount : ℕ
  pub sidechain_recipient : Bytes
  pub sidechain_id : Hash
  pub mainchain_confirm_height : ℕ
  pub merkle_proof : List Hash
  pub federation_signatures : List FederationSignature

pub record PegOutRequest : Type 0 where
  pub sidechain_tx_hash : Hash
  pub amount : ℕ
  pub mainchain_recipient : Bytes
  pub sidechain_id : Hash
  pub sidechain_confirm_height : ℕ
  pub merkle_proof : List Hash
  pub federation_signatures : List FederationSignature

pub data PegTransactionStatus : Type 0 where
  pending confirmed rejected completed : PegTransactionStatus

pub data PegTransactionType : Type 0 where
  peg_in peg_out : PegTransactionType

pub record PegTransaction : Type 0 where
  pub id : Hash
  pub tx_type : PegTransactionType
  pub status : PegTransactionStatus
  pub amount : ℕ
  pub source_chain : Hash
  pub destination_chain : Hash
  pub recipient : Bytes
  pub confirm_height : ℕ
  pub timestamp : ℕ
  pub cross_chain_tx_id : Option Hash

pub record TwoWayPegManager : Type 0 where
  pub pending_transactions : HashMap Hash PegTransaction
  pub completed_transactions : HashMap Hash PegTransaction
  pub federation_manager : Option FederationIntegrator
  pub required_confirmations : ℕ
  pub mainchain_utxo_set : Option UtxoSet

-- `TwoWayPegManager::new`
unfoldable pub new_peg_manager : ℕ → TwoWayPegManager
new_peg_manager required_confirmations = record {
  pending_transactions = [];
  completed_transactions = [];
  federation_manager = none;
  required_confirmations = required_confirmations;
  mainchain_utxo_set = none;
}

unfoldable pub with_federation_manager : TwoWayPegManager → FederationIntegrator → TwoWayPegManager
with_federation_manager m federation_manager = record m {
  federation_manager = some federation_manager;
}

unfoldable pub with_mainchain_utxo_set : TwoWayPegManager → UtxoSet → TwoWayPegManager
with_mainchain_utxo_set m utxo_set = record m { mainchain_utxo_set = some utxo_set }

-- `[0u8; 32]`: the main chain, and the message that every signature is checked for.
abbrev pub zero_hash : Hash
zero_hash = replicate 32 0

-- `map(count_signers).max().unwrap_or(0)`
unfoldable pub most_signers : List FederationSignature → ℕ
unfolding count_signers
most_signers [] = 0
most_signers (signature ∷ signatures) = max (count_signers signature) (most_signers signatures)

-- The loop over the signatures.
unfoldable pub all_valid :
    ThresholdCrypto → FederationIntegrator → Hash → List FederationSignature → Bool
unfolding validate_federation_signature
all_valid bls federation sidechain_id [] = true
all_valid bls federation sidechain_id (signature ∷ signatures) =
    let rest = all_valid bls federation sidechain_id signatures in
    if validate_federation_signature bls federation sidechain_id signature.epoch signature zero_hash
    then rest
    else false

unfoldable pub validate_federation_signatures :
    ThresholdCrypto → TwoWayPegManager → List FederationSignature → Hash → Result String (Unit {0})
unfolding most_signers all_valid is_threshold_met current_federation
validate_federation_signatures bls m signatures sidechain_id =
    if length signatures == 0
    then err "No federation signatures provided"
    else elim m.federation_manager [
      | none ↦ ok tt
      | some federation ↦ elim (current_federation federation sidechain_id) [
        | none ↦ err "No current federation epoch found"
        | some current_epoch ↦
            if is_threshold_met current_epoch (most_signers signatures)
            then if all_valid bls federation sidechain_id signatures
              then ok tt
              else err "Invalid federation signature"
            else err "Federation signature threshold not met"
      ]
    ]

unfoldable pub validate_mainchain_lock_transaction :
    TwoWayPegManager → PegInRequest → Result String (Unit {0})
validate_mainchain_lock_transaction m request = elim m.mainchain_utxo_set [
  | none ↦ err "Mainchain UTXO set not available for validation"
  | some _ ↦ ok tt
]

-- Nothing is checked.
unfoldable pub validate_sidechain_burn_transaction :
    TwoWayPegManager → PegOutRequest → Result String (Unit {0})
validate_sidechain_burn_transaction m request = ok tt

-- The record of a request.
unfoldable pub peg_in_transaction : PegInRequest → Hash → ℕ → PegTransaction
peg_in_transaction request tx_id timestamp = record {
  id = tx_id;
  tx_type = peg_in;
  status = pending;
  amount = request.amount;
  source_chain = zero_hash;
  destination_chain = request.sidechain_id;
  recipient = request.sidechain_recipient;
  confirm_height = request.mainchain_confirm_height;
  timestamp = timestamp;
  cross_chain_tx_id = none;
}

unfoldable pub peg_out_transaction : PegOutRequest → Hash → ℕ → PegTransaction
peg_out_transaction request tx_id timestamp = record {
  id = tx_id;
  tx_type = peg_out;
  status = pending;
  amount = request.amount;
  source_chain = request.sidechain_id;
  destination_chain = zero_hash;
  recipient = request.mainchain_recipient;
  confirm_height = request.sidechain_confirm_height;
  timestamp = timestamp;
  cross_chain_tx_id = none;
}

unfoldable pub insert_pending : Hash → PegTransaction → TwoWayPegManager → TwoWayPegManager
insert_pending tx_id peg_tx m = record m {
  pending_transactions = insert tx_id peg_tx m.pending_transactions;
}

unfoldable pub initiate_peg_in :
    ThresholdCrypto
    → TwoWayPegManager
    → PegInRequest
    → (tx_id : Hash) → (timestamp : ℕ) → Result String (Hash × TwoWayPegManager)
unfolding validate_federation_signatures validate_mainchain_lock_transaction peg_in_transaction
    insert_pending
initiate_peg_in bls m request tx_id timestamp = do
  _ ← validate_federation_signatures bls m request.federation_signatures request.sidechain_id
  _ ← validate_mainchain_lock_transaction m request
  ok (tx_id, insert_pending tx_id (peg_in_transaction request tx_id timestamp) m)

unfoldable pub initiate_peg_out :
    ThresholdCrypto
    → TwoWayPegManager
    → PegOutRequest
    → (tx_id : Hash) → (timestamp : ℕ) → Result String (Hash × TwoWayPegManager)
unfolding validate_federation_signatures validate_sidechain_burn_transaction peg_out_transaction
    insert_pending
initiate_peg_out bls m request tx_id timestamp = do
  _ ← validate_federation_signatures bls m request.federation_signatures request.sidechain_id
  _ ← validate_sidechain_burn_transaction m request
  ok (tx_id, insert_pending tx_id (peg_out_transaction request tx_id timestamp) m)

unfoldable pub confirm_peg_transaction :
    TwoWayPegManager → Hash → ℕ → Result String TwoWayPegManager
confirm_peg_transaction m tx_id current_height = elim (get tx_id m.pending_transactions) [
  | none ↦ err "Peg transaction not found"
  | some tx ↦
      if ltb current_height ((tx.confirm_height + m.required_confirmations) % u64_mod)
      then err "Insufficient confirmations"
      else ok (record m {
        completed_transactions =
            insert tx_id (record tx { status = confirmed }) m.completed_transactions;
        pending_transactions = remove tx_id m.pending_transactions;
      })
]

unfoldable pub complete_peg_transaction : TwoWayPegManager → Hash → Result String TwoWayPegManager
complete_peg_transaction m tx_id =
    if contains_key tx_id m.completed_transactions
    then ok (record m {
      completed_transactions =
          modify tx_id (λ tx. record tx { status = completed }) m.completed_transactions;
    })
    else err "Peg transaction not found"

unfoldable pub get_peg_transaction : TwoWayPegManager → Hash → Option PegTransaction
get_peg_transaction m tx_id = elim (get tx_id m.pending_transactions) [
  | some tx ↦ some tx
  | none ↦ get tx_id m.completed_transactions
]

unfoldable pub is_type : PegTransactionType → PegTransaction → Bool
is_type peg_in tx = elim tx.tx_type [ peg_in ↦ true | peg_out ↦ false ]
is_type peg_out tx = elim tx.tx_type [ peg_in ↦ false | peg_out ↦ true ]

-- `filter(..).map(|tx| tx.amount).sum()`, a sum of `u64`.
unfoldable pub total_of : PegTransactionType → HashMap Hash PegTransaction → ℕ
unfolding is_type
total_of tx_type [] = 0
total_of tx_type ((tx_id, tx) ∷ txs) =
    let rest = total_of tx_type txs in
    if is_type tx_type tx then (tx.amount + rest) % u64_mod else rest

pub record PegStats : Type 0 where
  pub pending_transactions : ℕ
  pub completed_transactions : ℕ
  pub total_peg_in : ℕ
  pub total_peg_out : ℕ

unfoldable pub get_stats : TwoWayPegManager → PegStats
unfolding total_of
get_stats m = record {
  pending_transactions = length m.pending_transactions;
  completed_transactions = length m.completed_transactions;
  total_peg_in = total_of peg_in m.completed_transactions;
  total_peg_out = total_of peg_out m.completed_transactions;
}
