-- ===== src/Sidechain/Proofs/Coordination.antt =====
-- What each operation of the integrator keeps.
use Prim.Native.String.{String}
use mathlib.Core.Path.{subst}
use rusty_coin.Common.{ℕ, ◌≡◌, inl, inr, some, List, arith, Option-cases}
use rusty_coin.Common.HashMap.{get, insert, get-insert, AreUnique, insert-AreUnique}
use rusty_coin.Common.Result.{Result, ok, ◌>>=◌, >>=-eq-ok}
use rusty_coin.Common.Words.{Bytes}
use rusty_coin.Types.Tx.{Hash, hash_key}
use rusty_coin.Types.Payload.{MasternodeId}
use rusty_coin.Sidechain.Federation.{
  FederationManager, transition_epoch, initialize_federation, new_manager,
}
use rusty_coin.Sidechain.Integrator.{
  FederationUpdateProposal, FederationIntegrator, initialize_sidechain_federation,
  propose_federation_update, transition_federation, emergency_federation_update,
}
use rusty_coin.Sidechain.Proofs.Epochs.{
  CanSign, HasFederation, transition_epoch-HasFederation, initialize_federation-HasFederation,
}
use rusty_coin.Sidechain.Proofs.Updates.{IsCoordinated, with_manager, with_manager-IsCoordinated}

pub record IsInvariant (s : FederationIntegrator) : Type 0 where
  pub coordinated : IsCoordinated s
  pub unique : AreUnique s.pending_updates

insert-IsInvariant :
    (s : FederationIntegrator) (sid : Hash) (m : FederationManager)
    → HasFederation sid m
    → IsInvariant s
    → IsInvariant (record s { federation_managers = insert sid m s.federation_managers })
insert-IsInvariant s sid m h i = record {
  coordinated = record {
    managed = λ k n e.
        let seen = get-insert sid k m s.federation_managers in
        elim (hash_key.eq sid k) [
          | yes p ↦
              let same : m ≡ n = ground (arith, seen) in
              subst (λ x. HasFederation k x) same (subst (λ x. HasFederation x m) p h)
          | no p ↦ i.coordinated.managed k n (ground (arith, seen))
        ];
    proposed = λ id p e.
        let (can, (n, found)) = i.coordinated.proposed id p e in
        let seen = get-insert sid p.sidechain_id m s.federation_managers in
        elim (hash_key.eq sid p.sidechain_id) [
          | yes q ↦ (can, (m, ground (arith, seen)))
          | no q ↦ (can, (n, ground (arith, seen)))
        ];
  };
  unique = i.unique;
}

pub initialised-IsInvariant :
    (s t : FederationIntegrator) (sid : Hash) (members : List MasternodeId) (threshold : ℕ)
    (keys : List Bytes) (from blocks : ℕ)
    → initialize_sidechain_federation s sid members threshold keys from blocks ≡ ok t
    → IsInvariant s
    → IsInvariant t
unfolding initialize_sidechain_federation
initialised-IsInvariant s t sid members threshold keys from blocks e i =
    let ((n, m), done, changed) =
      >>=-eq-ok (initialize_federation (new_manager blocks) sid members threshold from keys) _ e in
    let same : record s { federation_managers = insert sid m s.federation_managers } ≡ t =
      cc changed in
    subst IsInvariant same (
      insert-IsInvariant s sid m
        (initialize_federation-HasFederation m blocks sid members threshold from n keys done) i)

propose_federation_update-CanSign :
    (s t : FederationIntegrator) (p : FederationUpdateProposal) (height : ℕ)
    → propose_federation_update s p height ≡ ok t
    → CanSign p.new_members p.new_threshold p.new_public_keys
unfolding propose_federation_update
propose_federation_update-CanSign s t p height e = ground arith

propose_federation_update-ok :
    (s t : FederationIntegrator) (p : FederationUpdateProposal) (height : ℕ)
    → propose_federation_update s p height ≡ ok t
    → (m : FederationManager) × (get p.sidechain_id s.federation_managers ≡ some m)
      × (record s { pending_updates = insert p.governance_proposal_id p s.pending_updates } ≡ t)
unfolding propose_federation_update
propose_federation_update-ok s t p height e =
    elim (Option-cases (get p.sidechain_id s.federation_managers)) [
      | inl missing ↦ absurd (ground arith)
      | inr (m, there) ↦ (m, there, ground arith)
    ]

pub proposing-IsInvariant :
    (s t : FederationIntegrator) (p : FederationUpdateProposal) (height : ℕ)
    → propose_federation_update s p height ≡ ok t
    → IsInvariant s
    → IsInvariant t
proposing-IsInvariant s t p height e i =
    let can = propose_federation_update-CanSign s t p height e in
    let (m, there, changed) = propose_federation_update-ok s t p height e in
    let seen = λ (k : Hash). get-insert p.governance_proposal_id k p s.pending_updates in
    subst IsInvariant changed (record {
      coordinated = record {
        managed = i.coordinated.managed;
        proposed = λ k q g. elim (hash_key.eq p.governance_proposal_id k) [
          | yes same ↦
              let same' : p ≡ q = ground (arith, seen k) in
              subst
                (λ x.
                  CanSign x.new_members x.new_threshold x.new_public_keys
                  × ((m : FederationManager) × (get x.sidechain_id s.federation_managers ≡ some m)))
                same' (can, (m, there))
          | no other ↦ i.coordinated.proposed k q (ground (arith, seen k))
        ];
      };
      unique = insert-AreUnique p.governance_proposal_id p s.pending_updates i.unique;
    })

emergency_federation_update-ok :
    (s t : FederationIntegrator) (sid : Hash) (members : List MasternodeId) (threshold : ℕ)
    (keys : List Bytes) (height n : ℕ)
    → emergency_federation_update s sid members threshold keys height ≡ ok (n, t)
    → (m : FederationManager) × (m' : FederationManager) × (get sid s.federation_managers ≡ some m)
      × (transition_epoch m sid members threshold height keys ≡ ok (n, m'))
      × (with_manager s sid m' ≡ t)
unfolding emergency_federation_update transition_federation
emergency_federation_update-ok s t sid members threshold keys height n e =
    elim (Option-cases (get sid s.federation_managers)) [
      | inl missing ↦ absurd (ground arith)
      | inr (m, there) ↦
          let f : ℕ × FederationManager → Result String (ℕ × FederationIntegrator) =
            λ r. ok (r.0, with_manager s sid r.1) in
          let chain : (transition_epoch m sid members threshold height keys >>= f) ≡ ok (n, t) =
            ground (arith, there, e) in
          let ((k, m'), done, changed) =
            >>=-eq-ok (transition_epoch m sid members threshold height keys) f chain in
          (m, m', there, ground (arith, done, changed), ground (arith, changed))
    ]

pub emergency-IsInvariant :
    (s t : FederationIntegrator) (sid : Hash) (members : List MasternodeId) (threshold : ℕ)
    (keys : List Bytes) (height n : ℕ)
    → emergency_federation_update s sid members threshold keys height ≡ ok (n, t)
    → IsInvariant s
    → IsInvariant t
emergency-IsInvariant s t sid members threshold keys height n e i =
    let (m, m', there, done, changed) =
      emergency_federation_update-ok s t sid members threshold keys height n e in
    let h =
      transition_epoch-HasFederation m m' sid members threshold height n keys done
        (i.coordinated.managed sid m there) in
    subst IsInvariant changed (record {
      coordinated = with_manager-IsCoordinated s sid m m' there h i.coordinated;
      unique = i.unique;
    })
