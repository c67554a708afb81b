-- ===== src/Sidechain/Federation.antt =====
-- `FederationEpoch` and `FederationManager` (sidechain/federation_manager.rs).
use Prim.Native.String.{String}
use rusty_coin.Common.{
  ℕ, ◌+◌, ◌%◌, min, Bool, true, false, ◌||◌, Option, none, some, List, [], length, ltb, leb, ◌==◌,
  if◌then◌else◌,
}
use rusty_coin.Common.HashMap.{HashMap, get, insert, modify, nat_key}
use rusty_coin.Common.Result.{Result, ok, err, ◌>>=◌}
use rusty_coin.Common.Words.{Bytes, u32_mod, u64_mod}
use rusty_coin.Types.Tx.{Hash, hash_key}
use rusty_coin.Types.Payload.{MasternodeId}
use rusty_coin.Sidechain.Signature.{
  FederationSignature, ThresholdCrypto, verify_federation_signature_with_public_keys,
}

pub record FederationEpoch : Type 0 where
  pub epoch : ℕ
  pub members : List MasternodeId
  pub threshold : ℕ
  pub start_height : ℕ
  pub end_height : Option ℕ
  pub public_keys : List Bytes

-- `FederationEpoch::new`
unfoldable pub new_epoch : ℕ → List MasternodeId → ℕ → ℕ → List Bytes → FederationEpoch
new_epoch epoch members threshold start_height public_keys = record {
  epoch = epoch;
  members = members;
  threshold = threshold;
  start_height = start_height;
  end_height = none;
  public_keys = public_keys;
}

unfoldable pub is_threshold_met : FederationEpoch → ℕ → Bool
is_threshold_met e signer_count = leb e.threshold signer_count

pub record FederationManager : Type 0 where
  pub epochs : HashMap Hash (HashMap ℕ FederationEpoch)
  pub current_epochs : HashMap Hash ℕ
  pub epoch_transition_blocks : ℕ

-- `FederationManager::new`
unfoldable pub new_manager : ℕ → FederationManager
new_manager epoch_transition_blocks = record {
  epochs = [];
  current_epochs = [];
  epoch_transition_blocks = epoch_transition_blocks;
}

-- The three checks that stand before each change; the messages differ in their wording only.
unfoldable pub validate_federation : List MasternodeId → ℕ → List Bytes → Result String (Unit {0})
validate_federation members threshold public_keys =
    if length members == 0
    then err "Federation must have at least one member"
    else if threshold == 0 || ltb (length members % u32_mod) threshold
    then err "Threshold must be between 1 and the members count"
    else if length public_keys == length members
    then ok tt
    else err "Public keys count must match members count"

-- `entry(..).or_insert_with(HashMap::new)`
abbrev pub or_empty : Option (HashMap ℕ FederationEpoch) → HashMap ℕ FederationEpoch
or_empty none = []
or_empty (some m) = m

-- `self.epochs.entry(sidechain_id).or_insert_with(HashMap::new).insert(epoch, ..)`, and the current
-- epoch.
unfoldable pub insert_epoch : Hash → FederationEpoch → FederationManager → FederationManager
insert_epoch sidechain_id e m = record m {
  epochs = insert sidechain_id (insert e.epoch e (or_empty (get sidechain_id m.epochs))) m.epochs;
  current_epochs = insert sidechain_id e.epoch m.current_epochs;
}

unfoldable pub initialize_federation :
    FederationManager
    → Hash
    → List MasternodeId
    → ℕ
    → ℕ
    → List Bytes
    → Result String (ℕ × FederationManager)
unfolding validate_federation insert_epoch new_epoch
initialize_federation m sidechain_id members threshold start_height public_keys = do
  _ ← validate_federation members threshold public_keys
  ok (1, insert_epoch sidechain_id (new_epoch 1 members threshold start_height public_keys) m)

unfoldable pub get_epoch : FederationManager → Hash → ℕ → Option FederationEpoch
get_epoch m sidechain_id epoch = elim (get sidechain_id m.epochs) [
  | none ↦ none
  | some epochs ↦ get epoch epochs
]

unfoldable pub get_current_epoch : FederationManager → Hash → Option FederationEpoch
unfolding get_epoch
get_current_epoch m sidechain_id = elim (get sidechain_id m.current_epochs) [
  | none ↦ none
  | some current_epoch ↦ get_epoch m sidechain_id current_epoch
]

unfoldable pub modify_epoch :
    Hash → ℕ → (FederationEpoch → FederationEpoch) → FederationManager → FederationManager
modify_epoch sidechain_id epoch f m = record m {
  epochs = modify sidechain_id (modify epoch f) m.epochs;
}

unfoldable pub transition_epoch :
    FederationManager
    → Hash
    → List MasternodeId
    → ℕ
    → ℕ
    → List Bytes
    → Result String (ℕ × FederationManager)
unfolding validate_federation insert_epoch new_epoch modify_epoch
transition_epoch m sidechain_id new_members new_threshold current_height new_public_keys = do
  _ ← validate_federation new_members new_threshold new_public_keys
  elim (get sidechain_id m.current_epochs) [
    | none ↦ err "Sidechain federation not initialized"
    | some current_epoch_num ↦
        let new_epoch_num = (current_epoch_num + 1) % u64_mod in
        ok (
          new_epoch_num,
          insert_epoch sidechain_id
              (new_epoch new_epoch_num new_members new_threshold current_height new_public_keys)
              (modify_epoch sidechain_id current_epoch_num
                (λ e. record e { end_height = some current_height }) m),
        )
  ]

unfoldable pub should_transition_epoch : FederationManager → Hash → ℕ → Bool
unfolding get_current_epoch
should_transition_epoch m sidechain_id current_height = elim (get_current_epoch m sidechain_id) [
  | none ↦ false
  | some epoch ↦ elim epoch.end_height [
    | some end_height ↦ leb end_height current_height
    | none ↦ leb ((epoch.start_height + m.epoch_transition_blocks) % u64_mod) current_height
  ]
]

-- `scale` is `((old_threshold as f64 / old_size as f64) * new_size as f64).ceil() as u32`.
unfoldable pub updated_threshold : (ℕ → ℕ → ℕ → ℕ) → FederationEpoch → ℕ → ℕ
updated_threshold scale e new_size =
    let old_size = length e.members in
    let new_threshold = if ltb 0 old_size then scale e.threshold old_size new_size else 1 in
    min new_threshold (new_size % u32_mod)

unfoldable pub update_federation_members :
    (ℕ → ℕ → ℕ → ℕ)
    → FederationManager
    → Hash
    → List MasternodeId
    → List Bytes
    → Result String FederationManager
unfolding updated_threshold modify_epoch get_epoch
update_federation_members scale m sidechain_id new_members new_public_keys =
    if length new_members == 0
    then err "Federation must have at least one member"
    else if length new_public_keys == length new_members
    then elim (get sidechain_id m.current_epochs) [
      | none ↦ err "Sidechain federation not initialized"
      | some current_epoch_num ↦ elim (get_epoch m sidechain_id current_epoch_num) [
        | none ↦ err "Current epoch not found"
        | some _ ↦ ok (
            modify_epoch sidechain_id current_epoch_num
              (λ e. record e {
                threshold = updated_threshold scale e (length new_members);
                members = new_members;
                public_keys = new_public_keys;
              })
              m)
      ]
    ]
    else err "Public keys count must match members count"

unfoldable pub verify_threshold_signature :
    ThresholdCrypto → FederationManager → Hash → ℕ → FederationSignature → Bytes → Bool
unfolding get_epoch verify_federation_signature_with_public_keys
verify_threshold_signature bls m sidechain_id epoch signature message =
    elim (get_epoch m sidechain_id epoch) [
      | none ↦ false
      | some e ↦
          elim (verify_federation_signature_with_public_keys bls e.public_keys signature message
            e.threshold) [ ok _ ↦ true | err _ ↦ false ]
    ]
