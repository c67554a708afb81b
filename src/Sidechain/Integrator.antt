-- ===== src/Sidechain/Integrator.antt =====
-- `FederationIntegrator` (sidechain/federation_integrator.rs): the federation of each sidechain, and
-- the updates that wait for their height.
use Prim.Native.String.{String}
use rusty_coin.Common.{
  ℕ, ◌%◌, Bool, false, ◌||◌, Option, none, some, List, [], ◌∷◌, length, ltb, leb, ◌==◌,
  if◌then◌else◌,
}
use rusty_coin.Common.HashMap.{HashMap, get, insert, remove, modify, contains_key}
use rusty_coin.Common.Result.{Result, ok, err, ◌>>=◌}
use rusty_coin.Common.Words.{Bytes, u32_mod}
use rusty_coin.Types.Tx.{Hash, hash_key}
use rusty_coin.Types.Payload.{MasternodeId}
use rusty_coin.Governance.Proposals.{ActiveProposals, get_proposal}
use rusty_coin.Sidechain.Signature.{FederationSignature, ThresholdCrypto}
use rusty_coin.Sidechain.Federation.{
  FederationEpoch, FederationManager, new_manager, initialize_federation, transition_epoch,
}
use rusty_coin.Sidechain.Federation

pub record FederationUpdateProposal : Type 0 where
  pub sidechain_id : Hash
  pub new_members : List MasternodeId
  pub new_threshold : ℕ
  pub new_public_keys : List Bytes
  pub activation_height : ℕ
  pub governance_proposal_id : Hash

-- The governance state is shared with the rest of the node, and only read here.
pub record FederationIntegrator : Type 0 where
  pub federation_managers : HashMap Hash FederationManager
  pub pending_updates : HashMap Hash FederationUpdateProposal
  pub mainchain_governance : Option ActiveProposals

-- `FederationIntegrator::new`
unfoldable pub new_integrator : FederationIntegrator
new_integrator = record {
  federation_managers = [];
  pending_updates = [];
  mainchain_governance = none;
}

unfoldable pub with_mainchain_governance :
    FederationIntegrator → ActiveProposals → FederationIntegrator
with_mainchain_governance s governance = record s { mainchain_governance = some governance }

unfoldable pub initialize_sidechain_federation :
    FederationIntegrator
    → Hash
    → List MasternodeId
    → ℕ
    → List Bytes
    → (start_height epoch_transition_blocks : ℕ) → Result String FederationIntegrator
unfolding initialize_federation new_manager
initialize_sidechain_federation s sidechain_id initial_members threshold public_keys start_height
      epoch_transition_blocks =
    do
      initialized ←
          initialize_federation (new_manager epoch_transition_blocks) sidechain_id initial_members
            threshold start_height public_keys
      ok (record s {
        federation_managers = insert sidechain_id initialized.1 s.federation_managers;
      })

unfoldable pub propose_federation_update :
    FederationIntegrator → FederationUpdateProposal → ℕ → Result String FederationIntegrator
unfolding get_proposal
propose_federation_update s p current_height = elim s.mainchain_governance [
  | none ↦ err "Mainchain governance not configured"
  | some governance ↦ elim (get_proposal governance p.governance_proposal_id) [
    | none ↦ err "Governance proposal not found"
    | some _ ↦
        if leb p.activation_height current_height
        then err "Federation update activation height must be in the future"
        else if length p.new_members == 0
        then err "Federation must have at least one member"
        else if p.new_threshold == 0 || ltb (length p.new_members % u32_mod) p.new_threshold
        then err "Invalid threshold"
        else if length p.new_public_keys == length p.new_members
        then if contains_key p.sidechain_id s.federation_managers
          then ok
              (record s { pending_updates = insert p.governance_proposal_id p s.pending_updates })
          else err "Federation not initialized for sidechain"
        else err "Public keys count must match members count"
  ]
]

-- `get_mut` of the sidechain's manager, and `transition_epoch` on it.
unfoldable pub transition_federation :
    FederationIntegrator
    → String
    → Hash
    → List MasternodeId
    → ℕ
    → ℕ
    → List Bytes
    → Result String (ℕ × FederationIntegrator)
unfolding transition_epoch
transition_federation s missing sidechain_id new_members new_threshold current_height
      new_public_keys =
    elim (get sidechain_id s.federation_managers) [
      | none ↦ err missing
      | some manager ↦ do
        transitioned ←
            transition_epoch manager sidechain_id new_members new_threshold current_height
              new_public_keys
        ok (
          transitioned.0,
          record s {
            federation_managers = modify sidechain_id (λ _. transitioned.1) s.federation_managers;
          },
        )
    ]

-- The proposals that are due, as they stand in the map.
unfoldable pub ready_updates : ℕ → HashMap Hash FederationUpdateProposal → List Hash
ready_updates current_height [] = []
ready_updates current_height ((id, p) ∷ pending) =
    let rest = ready_updates current_height pending in
    if leb p.activation_height current_height then id ∷ rest else rest

-- What the loop ends with: the state at its end, and the updates that it has applied or the error
-- that has stopped it.
pub record Applied : Type 0 where
  pub state : FederationIntegrator
  pub updates : Result String (List Hash)

-- The loop over the updates that are due. A proposal is taken out before it is applied; one that is
-- missing would be a panic, which the keys of the map itself rule out.
unfoldable pub apply_updates : ℕ → List Hash → FederationIntegrator → Applied
unfolding transition_federation
apply_updates current_height [] s = record { state = s; updates = ok [] }
apply_updates current_height (id ∷ ids) s = elim (get id s.pending_updates) [
  | none ↦ record { state = s; updates = err "panic" }
  | some p ↦
      let taken = record s { pending_updates = remove id s.pending_updates } in
      elim (transition_federation taken "Federation manager not found" p.sidechain_id p.new_members
        p.new_threshold current_height p.new_public_keys) [
          | err e ↦ record { state = taken; updates = err e }
          | ok (epoch, s') ↦
              let rest = apply_updates current_height ids s' in
              record rest {
                updates = elim rest.updates [ ok applied ↦ ok (id ∷ applied) | err e ↦ err e ];
              }
        ]
]

unfoldable pub apply_pending_updates : FederationIntegrator → ℕ → Applied
unfolding apply_updates ready_updates
apply_pending_updates s current_height =
    apply_updates current_height (ready_updates current_height s.pending_updates) s

unfoldable pub emergency_federation_update :
    FederationIntegrator
    → Hash
    → List MasternodeId
    → ℕ
    → List Bytes
    → ℕ
    → Result String (ℕ × FederationIntegrator)
unfolding transition_federation
emergency_federation_update s sidechain_id new_members new_threshold new_public_keys
      current_height =
    transition_federation s "Federation not initialized for sidechain" sidechain_id new_members
      new_threshold current_height new_public_keys

unfoldable pub validate_federation_signature :
    ThresholdCrypto → FederationIntegrator → Hash → ℕ → FederationSignature → Bytes → Bool
unfolding Federation.verify_threshold_signature
validate_federation_signature bls s sidechain_id epoch signature message =
    elim (get sidechain_id s.federation_managers) [
      | none ↦ false
      | some manager ↦
          Federation.verify_threshold_signature bls manager sidechain_id epoch signature message
    ]

unfoldable pub should_transition_federation : FederationIntegrator → Hash → ℕ → Bool
unfolding Federation.should_transition_epoch
should_transition_federation s sidechain_id current_height =
    elim (get sidechain_id s.federation_managers) [
      | none ↦ false
      | some manager ↦ Federation.should_transition_epoch manager sidechain_id current_height
    ]

-- `FederationIntegrator::get_current_epoch`
unfoldable pub current_federation : FederationIntegrator → Hash → Option FederationEpoch
unfolding Federation.get_current_epoch
current_federation s sidechain_id = elim (get sidechain_id s.federation_managers) [
  | none ↦ none
  | some manager ↦ Federation.get_current_epoch manager sidechain_id
]
