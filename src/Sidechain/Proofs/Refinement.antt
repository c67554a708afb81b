-- ===== src/Sidechain/Proofs/Refinement.antt =====
-- The life of a peg transaction, as a refinement of its specification.
use mathlib.Core.Path.{subst}
use rusty_coin.Common.{
  ℕ, ◌+◌, ◌%◌, ◌≤◌, ◌<◌, ◌≡◌, ◌⊎◌, inl, inr, refl, sym, ap, Option, none, some, arith, Option-cases,
  dec_lt,
}
use rusty_coin.Common.HashMap.{get, get-insert, get-remove, get-modify}
use rusty_coin.Common.Result.{ok, err}
use rusty_coin.Common.Words.{u64_mod}
use rusty_coin.Types.Tx.{Hash, hash_key}
use rusty_coin.Sidechain.Signature.{ThresholdCrypto}
use rusty_coin.Sidechain.Peg.{
  PegInRequest, PegTransaction, pending, confirmed, completed, TwoWayPegManager,
  with_federation_manager, with_mainchain_utxo_set, initiate_peg_in, confirm_peg_transaction,
  complete_peg_transaction, get_peg_transaction, peg_in_transaction, peg_out_transaction,
  insert_pending,
}
use rusty_coin.Sidechain.Proofs.Lifecycle.{
  Step, in_peg, out_peg, confirmation, completion, federation, utxos, Reach, IsOrderly,
  Reach-IsOrderly, after_confirm, after_complete, confirm_peg_transaction-ok,
  complete_peg_transaction-ok, initiate_peg_in-ok, initiate_peg_out-ok,
}

-- The specification of one transaction: it is created pending, then confirmed at a height that has
-- the confirmations, then completed; nothing but its status changes, and nothing takes it away.
pub data Moves (required : ℕ) : Option PegTransaction → Option PegTransaction → Type 0 where
  stays : {o : Option PegTransaction} → Moves required o o
  created : {tx : PegTransaction} → tx.status ≡ pending → Moves required none (some tx)
  confirming :
      {tx : PegTransaction} (height : ℕ)
      → tx.status ≡ pending
      → (tx.confirm_height + required) % u64_mod ≤ height
      → Moves required (some tx) (some (record tx { status = confirmed }))
  completing :
      {tx : PegTransaction}
      → tx.status ≡ confirmed
      → Moves required (some tx) (some (record tx { status = completed }))

relate :
    {required : ℕ} {o o' a b : Option PegTransaction}
    → a ≡ o
    → b ≡ o'
    → Moves required a b
    → Moves required o o'
relate {required} {o' = o'} {a = a} p q h =
    subst (λ x. Moves required x o') p (subst (λ x. Moves required a x) q h)

insert_pending-Moves :
    {required : ℕ} (m : TwoWayPegManager) (tx_id : Hash) (tx : PegTransaction) (id : Hash)
    → tx.status ≡ pending
    → get_peg_transaction m tx_id ≡ none
    → Moves required (get_peg_transaction m id) (get_peg_transaction (insert_pending tx_id tx m) id)
unfolding insert_pending get_peg_transaction
insert_pending-Moves m tx_id tx id status fresh = elim (hash_key.eq tx_id id) [
  | yes p ↦
      relate (ground arith) (ground (arith, get-insert tx_id id tx m.pending_transactions))
        (created {tx = tx} status)
  | no p ↦
      relate {a = get_peg_transaction m id} {b = get_peg_transaction m id} refl
        (ground (arith, get-insert tx_id id tx m.pending_transactions)) stays
]

after_confirm-Moves :
    {required : ℕ} (m : TwoWayPegManager) (tx_id : Hash) (tx : PegTransaction) (height : ℕ)
    (id : Hash)
    → get tx_id m.pending_transactions ≡ some tx
    → (tx.confirm_height + m.required_confirmations) % u64_mod ≤ height
    → IsOrderly required m
    → Moves required (get_peg_transaction m id) (get_peg_transaction (after_confirm m tx_id tx) id)
unfolding get_peg_transaction
after_confirm-Moves m tx_id tx height id found enough h = elim (hash_key.eq tx_id id) [
  | yes p ↦
      relate {a = some tx} {b = some (record tx { status = confirmed })} (ground arith)
        (ground (
          arith,
          get-remove tx_id id m.pending_transactions,
          get-insert tx_id id (record tx { status = confirmed }) m.completed_transactions,
        ))
        (confirming height (h.waiting tx_id tx found).1 (ground (arith, h.requires)))
  | no p ↦
      relate {a = get_peg_transaction m id} {b = get_peg_transaction m id} refl
        (ground (
          arith,
          get-remove tx_id id m.pending_transactions,
          get-insert tx_id id (record tx { status = confirmed }) m.completed_transactions,
        ))
        stays
]

after_complete-Moves :
    {required : ℕ} (m : TwoWayPegManager) (tx_id : Hash) (tx : PegTransaction) (id : Hash)
    → get tx_id m.completed_transactions ≡ some tx
    → IsOrderly required m
    → Moves required (get_peg_transaction m id) (get_peg_transaction (after_complete m tx_id) id)
unfolding get_peg_transaction
after_complete-Moves m tx_id tx id found h =
    let change =
      get-modify tx_id id (λ t. record t { status = completed }) m.completed_transactions in
    elim (hash_key.eq tx_id id) [
      | yes p ↦ elim (Option-cases (get tx_id m.pending_transactions)) [
        | inr (t, waits) ↦ absurd (ground (arith, h.waiting tx_id t waits))
        | inl gone ↦ elim (h.done tx_id tx found).1 [
          | inl s ↦
              relate {a = some tx} {b = some (record tx { status = completed })} (ground arith)
                (ground (arith, change)) (completing s)
          | inr s ↦ relate {a = some tx} {b = some tx} (ground arith) (ground (arith, change)) stays
        ]
      ]
      | no p ↦
          relate {a = get_peg_transaction m id} {b = get_peg_transaction m id} refl
            (ground (arith, change)) stays
    ]

Step-Moves :
    {bls : ThresholdCrypto} {required : ℕ} {m m' : TwoWayPegManager} (id : Hash)
    → IsOrderly required m
    → Step bls m m'
    → Moves required (get_peg_transaction m id) (get_peg_transaction m' id)
unfolding peg_in_transaction peg_out_transaction with_federation_manager with_mainchain_utxo_set
    get_peg_transaction
Step-Moves {bls} {required} {m} {m'} id h (in_peg request tx_id timestamp fresh e) =
    subst (λ s. Moves required (get_peg_transaction m id) (get_peg_transaction s id))
      (initiate_peg_in-ok bls m m' request tx_id timestamp e)
      (insert_pending-Moves m tx_id (peg_in_transaction request tx_id timestamp) id refl fresh)
Step-Moves {bls} {required} {m} {m'} id h (out_peg request tx_id timestamp fresh e) =
    subst (λ s. Moves required (get_peg_transaction m id) (get_peg_transaction s id))
      (initiate_peg_out-ok bls m m' request tx_id timestamp e)
      (insert_pending-Moves m tx_id (peg_out_transaction request tx_id timestamp) id refl fresh)
Step-Moves {bls} {required} {m} {m'} id h (confirmation tx_id height e) =
    let (tx, found, enough, changed) = confirm_peg_transaction-ok m m' tx_id height e in
    subst (λ s. Moves required (get_peg_transaction m id) (get_peg_transaction s id)) changed
      (after_confirm-Moves m tx_id tx height id found enough h)
Step-Moves {bls} {required} {m} {m'} id h (completion tx_id e) =
    let (tx, found, changed) = complete_peg_transaction-ok m m' tx_id e in
    subst (λ s. Moves required (get_peg_transaction m id) (get_peg_transaction s id)) changed
      (after_complete-Moves m tx_id tx id found h)
Step-Moves id h (federation f) = stays
Step-Moves id h (utxos u) = stays

-- From every state that a manager reaches, whose generated identifiers are new, every change moves
-- each transaction as the specification says, or leaves it alone.
pub Reach-Step-Moves :
    {bls : ThresholdCrypto} {required : ℕ} {m m' : TwoWayPegManager} (id : Hash)
    → Reach bls required m
    → Step bls m m'
    → Moves required (get_peg_transaction m id) (get_peg_transaction m' id)
Reach-Step-Moves id r st = Step-Moves id (Reach-IsOrderly r) st

confirm_peg_transaction_enough :
    (m : TwoWayPegManager) (tx_id : Hash) (tx : PegTransaction) (height : ℕ)
    → get tx_id m.pending_transactions ≡ some tx
    → (tx.confirm_height + m.required_confirmations) % u64_mod ≤ height
    → confirm_peg_transaction m tx_id height ≡ ok (after_confirm m tx_id tx)
unfolding confirm_peg_transaction
confirm_peg_transaction_enough m tx_id tx height found enough = ground arith

confirm_peg_transaction_early :
    (m : TwoWayPegManager) (tx_id : Hash) (tx : PegTransaction) (height : ℕ)
    → get tx_id m.pending_transactions ≡ some tx
    → height < (tx.confirm_height + m.required_confirmations) % u64_mod
    → confirm_peg_transaction m tx_id height ≡ err "Insufficient confirmations"
unfolding confirm_peg_transaction
confirm_peg_transaction_early m tx_id tx height found early = ground arith

-- Once confirmed, a transaction can be completed, and is then found.
after_confirm-completes :
    (m : TwoWayPegManager) (tx_id : Hash) (tx : PegTransaction)
    → let confirmed_state = after_confirm m tx_id tx in
      let done = after_complete confirmed_state tx_id in
      (complete_peg_transaction confirmed_state tx_id ≡ ok done)
      × (get_peg_transaction done tx_id ≡ some (record tx { status = completed }))
unfolding complete_peg_transaction get_peg_transaction
after_confirm-completes m tx_id tx =
    let gone = get-remove tx_id tx_id m.pending_transactions in
    let moved =
      get-insert tx_id tx_id (record tx { status = confirmed }) m.completed_transactions in
    let changed =
      get-modify tx_id tx_id (λ t. record t { status = completed })
        (after_confirm m tx_id tx).completed_transactions in
    (ground (arith, moved), ground (arith, gone, moved, changed))

-- A peg-in that was accepted can be finished, where the height of its confirmation does not wrap
-- around: before that height it cannot be confirmed, and from it on it is confirmed and then
-- completed, and the record then found under its identifier is the request's, completed.
pub initiate_peg_in-completes :
    (bls : ThresholdCrypto) (m m' : TwoWayPegManager) (request : PegInRequest) (tx_id : Hash)
    (timestamp height : ℕ)
    → initiate_peg_in bls m request tx_id timestamp ≡ ok (tx_id, m')
    → request.mainchain_confirm_height + m.required_confirmations < u64_mod
    → ((height < request.mainchain_confirm_height + m.required_confirmations)
        × (confirm_peg_transaction m' tx_id height ≡ err "Insufficient confirmations"))
      ⊎ ((request.mainchain_confirm_height + m.required_confirmations ≤ height)
          × ((s : TwoWayPegManager) × ((t : TwoWayPegManager) × (confirm_peg_transaction m' tx_id
                    height
                  ≡ ok s)
                × (complete_peg_transaction s tx_id ≡ ok t)
                × (get_peg_transaction t tx_id
                    ≡ some (record (peg_in_transaction request tx_id timestamp) {
                      status = completed;
                    })))))
unfolding insert_pending peg_in_transaction
initiate_peg_in-completes bls m m' request tx_id timestamp height e fits =
    let changed = initiate_peg_in-ok bls m m' request tx_id timestamp e in
    let tx = peg_in_transaction request tx_id timestamp in
    let found : get tx_id m'.pending_transactions ≡ some tx = ground (
      arith,
      ap (λ s. s.pending_transactions) changed,
      get-insert tx_id tx_id tx m.pending_transactions,
    ) in
    let required : m'.required_confirmations ≡ m.required_confirmations =
      sym (ap (λ s. s.required_confirmations) changed) in
    elim (dec_lt height (request.mainchain_confirm_height + m.required_confirmations)) [
      | yes early ↦
          inl (
            early,
            confirm_peg_transaction_early m' tx_id tx height found (omega (arith, required)),
          )
      | no late ↦
          let enough : request.mainchain_confirm_height + m.required_confirmations ≤ height =
            omega arith in
          let (finished, shown) = after_confirm-completes m' tx_id tx in
          inr (
            enough,
            (
              after_confirm m' tx_id tx,
              (
                after_complete (after_confirm m' tx_id tx) tx_id,
                confirm_peg_transaction_enough m' tx_id tx height found (omega (arith, required)),
                finished,
                shown,
              ),
            ),
          )
    ]
