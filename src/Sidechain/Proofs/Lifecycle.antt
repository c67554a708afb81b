-- ===== src/Sidechain/Proofs/Lifecycle.antt =====
-- The changes of the peg, and what every sequence of them keeps.
use Prim.Native.String.{String}
use mathlib.Core.Path.{subst}
use rusty_coin.Common.{
  ℕ, ◌+◌, ◌%◌, ◌≤◌, ◌≡◌, ◌⊎◌, inl, inr, refl, ap, none, some, arith, Option-cases,
}
use rusty_coin.Common.HashMap.{get, insert, remove, modify, get-insert, get-remove, get-modify}
use rusty_coin.Common.Result.{Result, ok, err, ◌>>=◌}
use rusty_coin.Common.Words.{u64_mod}
use rusty_coin.Types.Tx.{Hash, hash_key}
use rusty_coin.Utxo.Set.{UtxoSet}
use rusty_coin.Sidechain.Signature.{ThresholdCrypto}
use rusty_coin.Sidechain.Integrator.{FederationIntegrator}
use rusty_coin.Sidechain.Peg.{
  PegInRequest, PegOutRequest, PegTransaction, pending, confirmed, completed, TwoWayPegManager,
  new_peg_manager, with_federation_manager, with_mainchain_utxo_set, initiate_peg_in,
  initiate_peg_out, confirm_peg_transaction, complete_peg_transaction, get_peg_transaction,
  peg_in_transaction, peg_out_transaction, insert_pending, validate_federation_signatures,
  validate_mainchain_lock_transaction, validate_sidechain_burn_transaction,
}

-- A change of the manager. A generated identifier has not been used.
pub data Step (bls : ThresholdCrypto) (m : TwoWayPegManager) : TwoWayPegManager → Type 1 where
  in_peg :
      (request : PegInRequest) (tx_id : Hash) (timestamp : ℕ) {m' : TwoWayPegManager}
      → get_peg_transaction m tx_id ≡ none
      → initiate_peg_in bls m request tx_id timestamp ≡ ok (tx_id, m')
      → Step bls m m'
  out_peg :
      (request : PegOutRequest) (tx_id : Hash) (timestamp : ℕ) {m' : TwoWayPegManager}
      → get_peg_transaction m tx_id ≡ none
      → initiate_peg_out bls m request tx_id timestamp ≡ ok (tx_id, m')
      → Step bls m m'
  confirmation :
      (tx_id : Hash) (height : ℕ) {m' : TwoWayPegManager}
      → confirm_peg_transaction m tx_id height ≡ ok m'
      → Step bls m m'
  completion :
      (tx_id : Hash) {m' : TwoWayPegManager}
      → complete_peg_transaction m tx_id ≡ ok m'
      → Step bls m m'
  federation : (f : FederationIntegrator) → Step bls m (with_federation_manager m f)
  utxos : (u : UtxoSet) → Step bls m (with_mainchain_utxo_set m u)

pub data Reach (bls : ThresholdCrypto) (required : ℕ) : TwoWayPegManager → Type 1 where
  start : Reach bls required (new_peg_manager required)
  next : {m m' : TwoWayPegManager} → Reach bls required m → Step bls m m' → Reach bls required m'

-- Pending transactions are pending and stand in one of the maps only; the others are past that.
pub record IsOrderly (required : ℕ) (m : TwoWayPegManager) : Type 0 where
  pub waiting :
      (id : Hash) (tx : PegTransaction)
      → get id m.pending_transactions ≡ some tx
      → (tx.id ≡ id) × (tx.status ≡ pending) × (get id m.completed_transactions ≡ none)
  pub done :
      (id : Hash) (tx : PegTransaction)
      → get id m.completed_transactions ≡ some tx
      → (tx.id ≡ id) × ((tx.status ≡ confirmed) ⊎ (tx.status ≡ completed))
  pub requires : m.required_confirmations ≡ required

pub insert_pending-IsOrderly :
    {required : ℕ} (m : TwoWayPegManager) (tx_id : Hash) (tx : PegTransaction)
    → tx.id ≡ tx_id
    → tx.status ≡ pending
    → get_peg_transaction m tx_id ≡ none
    → IsOrderly required m
    → IsOrderly required (insert_pending tx_id tx m)
unfolding insert_pending get_peg_transaction
insert_pending-IsOrderly m tx_id tx named status fresh h = record {
  waiting =
      λ id tx' e. ground (arith, get-insert tx_id id tx m.pending_transactions, h.waiting id tx');
  done = h.done;
  requires = h.requires;
}

abbrev pub after_confirm : TwoWayPegManager → Hash → PegTransaction → TwoWayPegManager
after_confirm m tx_id tx = record m {
  completed_transactions = insert tx_id (record tx { status = confirmed }) m.completed_transactions;
  pending_transactions = remove tx_id m.pending_transactions;
}

abbrev pub after_complete : TwoWayPegManager → Hash → TwoWayPegManager
after_complete m tx_id = record m {
  completed_transactions =
      modify tx_id (λ tx. record tx { status = completed }) m.completed_transactions;
}

pub confirm_peg_transaction-ok :
    (m m' : TwoWayPegManager) (tx_id : Hash) (height : ℕ)
    → confirm_peg_transaction m tx_id height ≡ ok m'
    → (tx : PegTransaction) × (get tx_id m.pending_transactions ≡ some tx)
      × ((tx.confirm_height + m.required_confirmations) % u64_mod ≤ height)
      × (after_confirm m tx_id tx ≡ m')
unfolding confirm_peg_transaction
confirm_peg_transaction-ok m m' tx_id height e =
    elim (Option-cases (get tx_id m.pending_transactions)) [
      | inl missing ↦ absurd (ground arith)
      | inr (tx, found) ↦ (tx, found, ground arith, ground arith)
    ]

pub complete_peg_transaction-ok :
    (m m' : TwoWayPegManager) (tx_id : Hash)
    → complete_peg_transaction m tx_id ≡ ok m'
    → (tx : PegTransaction) × (get tx_id m.completed_transactions ≡ some tx)
      × (after_complete m tx_id ≡ m')
unfolding complete_peg_transaction
complete_peg_transaction-ok m m' tx_id e =
    elim (Option-cases (get tx_id m.completed_transactions)) [
      | inl missing ↦ absurd (ground arith)
      | inr (tx, found) ↦ (tx, found, ground arith)
    ]

pub after_confirm-IsOrderly :
    {required : ℕ} (m : TwoWayPegManager) (tx_id : Hash) (tx : PegTransaction)
    → get tx_id m.pending_transactions ≡ some tx
    → IsOrderly required m
    → IsOrderly required (after_confirm m tx_id tx)
after_confirm-IsOrderly m tx_id tx found h = record {
  waiting = λ id t e. ground (
    arith,
    get-remove tx_id id m.pending_transactions,
    get-insert tx_id id (record tx { status = confirmed }) m.completed_transactions,
    h.waiting id t,
  );
  done = λ id t e. ground (
    arith,
    get-insert tx_id id (record tx { status = confirmed }) m.completed_transactions,
    h.done id t,
    h.waiting tx_id tx found,
  );
  requires = h.requires;
}

after_complete-IsOrderly :
    {required : ℕ} (m : TwoWayPegManager) (tx_id : Hash) (tx : PegTransaction)
    → get tx_id m.completed_transactions ≡ some tx
    → IsOrderly required m
    → IsOrderly required (after_complete m tx_id)
after_complete-IsOrderly m tx_id tx found h = record {
  waiting = λ id t e. ground (
    arith,
    get-modify tx_id id (λ tx. record tx { status = completed }) m.completed_transactions,
    h.waiting id t,
  );
  done = λ id t e. elim (hash_key.eq tx_id id) [
    | yes p ↦ ground (
      arith,
      get-modify tx_id id (λ tx. record tx { status = completed }) m.completed_transactions,
      h.done tx_id tx found,
    )
    | no p ↦ ground (
      arith,
      get-modify tx_id id (λ tx. record tx { status = completed }) m.completed_transactions,
      h.done id t,
    )
  ];
  requires = h.requires;
}

after_two_checks :
    {A : Type 0} (r r' : Result String (Unit {0})) (x y : A)
    → (r >>= λ _. r' >>= λ _. ok x) ≡ ok y
    → x ≡ y
after_two_checks (ok _) (ok _) x y e = cc e
after_two_checks (ok _) (err e') x y e = absurd (cc e)
after_two_checks (err e') r' x y e = absurd (cc e)

pub initiate_peg_in-ok :
    (bls : ThresholdCrypto) (m m' : TwoWayPegManager) (request : PegInRequest) (tx_id : Hash)
    (timestamp : ℕ)
    → initiate_peg_in bls m request tx_id timestamp ≡ ok (tx_id, m')
    → insert_pending tx_id (peg_in_transaction request tx_id timestamp) m ≡ m'
unfolding initiate_peg_in
initiate_peg_in-ok bls m m' request tx_id timestamp e =
    ap (λ p. p.1)
      (after_two_checks
        (validate_federation_signatures bls m request.federation_signatures request.sidechain_id)
        (validate_mainchain_lock_transaction m request)
        (tx_id, insert_pending tx_id (peg_in_transaction request tx_id timestamp) m) (tx_id, m') e)

pub initiate_peg_out-ok :
    (bls : ThresholdCrypto) (m m' : TwoWayPegManager) (request : PegOutRequest) (tx_id : Hash)
    (timestamp : ℕ)
    → initiate_peg_out bls m request tx_id timestamp ≡ ok (tx_id, m')
    → insert_pending tx_id (peg_out_transaction request tx_id timestamp) m ≡ m'
unfolding initiate_peg_out
initiate_peg_out-ok bls m m' request tx_id timestamp e =
    ap (λ p. p.1)
      (after_two_checks
        (validate_federation_signatures bls m request.federation_signatures request.sidechain_id)
        (validate_sidechain_burn_transaction m request)
        (tx_id, insert_pending tx_id (peg_out_transaction request tx_id timestamp) m) (tx_id, m') e)

pub Step-IsOrderly :
    {bls : ThresholdCrypto} {required : ℕ} {m m' : TwoWayPegManager}
    → Step bls m m'
    → IsOrderly required m
    → IsOrderly required m'
unfolding peg_in_transaction peg_out_transaction with_federation_manager with_mainchain_utxo_set
Step-IsOrderly {bls} {required} {m} {m'} (in_peg request tx_id timestamp fresh e) h =
    subst (IsOrderly required) (initiate_peg_in-ok bls m m' request tx_id timestamp e) (
      insert_pending-IsOrderly m tx_id (peg_in_transaction request tx_id timestamp) refl refl fresh
        h)
Step-IsOrderly {bls} {required} {m} {m'} (out_peg request tx_id timestamp fresh e) h =
    subst (IsOrderly required) (initiate_peg_out-ok bls m m' request tx_id timestamp e) (
      insert_pending-IsOrderly m tx_id (peg_out_transaction request tx_id timestamp) refl refl fresh
        h)
Step-IsOrderly {bls} {required} {m} {m'} (confirmation tx_id height e) h =
    let (tx, found, _, changed) = confirm_peg_transaction-ok m m' tx_id height e in
    subst (IsOrderly required) changed (after_confirm-IsOrderly m tx_id tx found h)
Step-IsOrderly {bls} {required} {m} {m'} (completion tx_id e) h =
    let (tx, found, changed) = complete_peg_transaction-ok m m' tx_id e in
    subst (IsOrderly required) changed (after_complete-IsOrderly m tx_id tx found h)
Step-IsOrderly (federation f) h = record {
  waiting = h.waiting;
  done = h.done;
  requires = h.requires;
}
Step-IsOrderly (utxos u) h = record { waiting = h.waiting; done = h.done; requires = h.requires }

pub Reach-IsOrderly :
    {bls : ThresholdCrypto} {required : ℕ} {m : TwoWayPegManager}
    → Reach bls required m
    → IsOrderly required m
unfolding new_peg_manager get
Reach-IsOrderly start = record {
  waiting = λ id tx e. absurd (cc e);
  done = λ id tx e. absurd (cc e);
  requires = refl;
}
Reach-IsOrderly (next r st) = Step-IsOrderly st (Reach-IsOrderly r)
