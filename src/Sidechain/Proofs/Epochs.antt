-- ===== src/Sidechain/Proofs/Epochs.antt =====
-- The epochs of a sidechain's federation.
use Prim.Native.String.{String}
use mathlib.Core.Path.{subst}
use mathlib.Core.Logic.{ite}
use mathlib.Core.Option
use rusty_coin.Common.{
  ℕ, ◌+◌, ◌%◌, ◌≤◌, ◌<◌, ◌≡◌, inl, inr, refl, none, some, List, arith, Option-cases, length,
  ℕ_discrete,
}
use rusty_coin.Common.HashMap.{get, insert, modify, get-insert, get-modify, nat_key}
use rusty_coin.Common.Result.{Result, ok, ◌>>=◌, >>=-eq-ok}
use rusty_coin.Common.Words.{Bytes, u32_mod, u64_mod}
use rusty_coin.Types.Tx.{Hash, hash_key}
use rusty_coin.Types.Payload.{MasternodeId}
use rusty_coin.Sidechain.Federation.{
  FederationEpoch, FederationManager, new_epoch, new_manager, validate_federation, insert_epoch,
  modify_epoch, initialize_federation, get_epoch, transition_epoch, or_empty,
}

-- The members, the threshold and the keys of a federation that can sign.
pub record CanSign (members : List MasternodeId) (threshold : ℕ) (public_keys : List Bytes)
    : Type 0 where
  pub positive : 0 < threshold
  pub reachable : threshold ≤ length members % u32_mod
  pub keys : length public_keys ≡ length members

pub record IsFormed (e : FederationEpoch) : Type 0 where
  pub can_sign : CanSign e.members e.threshold e.public_keys

-- Every epoch is filed under its number, and can sign.
abbrev pub AllFormed : Hash → FederationManager → Type 0
AllFormed sid m =
    (k : ℕ) (e : FederationEpoch) → get_epoch m sid k ≡ some e → (e.epoch ≡ k) × IsFormed e

-- Every epoch can sign and is filed under its number, and the current one is open.
pub record HasFederation (sid : Hash) (m : FederationManager) : Type 0 where
  pub number : ℕ
  pub current : get sid m.current_epochs ≡ some number
  pub epoch : FederationEpoch
  pub found : get_epoch m sid number ≡ some epoch
  pub open_ended : epoch.end_height ≡ none
  pub formed : AllFormed sid m

pub validate_federation-CanSign :
    (members : List MasternodeId) (threshold : ℕ) (keys : List Bytes)
    → validate_federation members threshold keys ≡ ok tt
    → CanSign members threshold keys
unfolding validate_federation
validate_federation-CanSign members threshold keys e = ground arith

pub CanSign-validate_federation :
    (members : List MasternodeId) (threshold : ℕ) (keys : List Bytes)
    → CanSign members threshold keys
    → validate_federation members threshold keys ≡ ok tt
unfolding validate_federation
CanSign-validate_federation members threshold keys c = ground arith

get_epoch-insert_epoch :
    (m : FederationManager) (sid : Hash) (e : FederationEpoch) (k : ℕ)
    → get_epoch (insert_epoch sid e m) sid k
      ≡ ite (ℕ_discrete e.epoch k) (some e) (get_epoch m sid k)
unfolding get_epoch insert_epoch get
get_epoch-insert_epoch m sid e k = ground (
  arith,
  get-insert sid sid (insert e.epoch e (or_empty (get sid m.epochs))) m.epochs,
  get-insert e.epoch k e (or_empty (get sid m.epochs)),
)

get_epoch-modify_epoch :
    (m : FederationManager) (sid : Hash) (n k : ℕ) (f : FederationEpoch → FederationEpoch)
    → get_epoch (modify_epoch sid n f m) sid k
      ≡ ite (ℕ_discrete n k) (Option.map f (get_epoch m sid k)) (get_epoch m sid k)
unfolding get_epoch modify_epoch
get_epoch-modify_epoch m sid n k f = elim (Option-cases (get sid m.epochs)) [
  | inl missing ↦ ground (arith, get-modify sid sid (modify n f) m.epochs)
  | inr (epochs, there) ↦
      ground (arith, get-modify sid sid (modify n f) m.epochs, get-modify n k f epochs)
]

insert_epoch-HasFederation :
    (m : FederationManager) (sid : Hash) (e : FederationEpoch)
    → e.end_height ≡ none
    → IsFormed e
    → AllFormed sid m
    → HasFederation sid (insert_epoch sid e m)
unfolding insert_epoch
insert_epoch-HasFederation m sid e open_ended f h = record {
  number = e.epoch;
  current = ground (arith, get-insert sid sid e.epoch m.current_epochs);
  epoch = e;
  found = ground (arith, get_epoch-insert_epoch m sid e e.epoch);
  open_ended = open_ended;
  formed = λ k e' g. elim (ℕ_discrete e.epoch k) [
    | yes p ↦
        let same : e ≡ e' = ground (arith, get_epoch-insert_epoch m sid e k) in
        subst (λ x. (x.epoch ≡ k) × IsFormed x) same (p, f)
    | no p ↦ h k e' (ground (arith, get_epoch-insert_epoch m sid e k))
  ];
}

end_epoch-AllFormed :
    (m : FederationManager) (sid : Hash) (n height : ℕ)
    → AllFormed sid m
    → AllFormed sid (modify_epoch sid n (λ e. record e { end_height = some height }) m)
end_epoch-AllFormed m sid n height h k e g =
    let seen = get_epoch-modify_epoch m sid n k (λ e. record e { end_height = some height }) in
    elim (ℕ_discrete n k) [
      | yes p ↦ elim (Option-cases (get_epoch m sid k)) [
        | inl missing ↦ absurd (ground (arith, seen))
        | inr (old, there) ↦
            let same : record old { end_height = some height } ≡ e = ground (arith, seen) in
            let (named, f) = h k old there in
            subst (λ x. (x.epoch ≡ k) × IsFormed x) same (named, record { can_sign = f.can_sign })
      ]
      | no p ↦ h k e (ground (arith, seen))
    ]

validated :
    {A : Type 0} (members : List MasternodeId) (threshold : ℕ) (keys : List Bytes)
    (f : Unit {0} → Result String A) {a : A}
    → (validate_federation members threshold keys >>= f) ≡ ok a
    → validate_federation members threshold keys ≡ ok tt
validated members threshold keys f e =
    (>>=-eq-ok (validate_federation members threshold keys) f e).1

transition_epoch-CanSign :
    (m m' : FederationManager) (sid : Hash) (members : List MasternodeId) (threshold height n : ℕ)
    (keys : List Bytes)
    → transition_epoch m sid members threshold height keys ≡ ok (n, m')
    → CanSign members threshold keys
unfolding transition_epoch
transition_epoch-CanSign m m' sid members threshold height n keys e =
    validate_federation-CanSign members threshold keys (validated members threshold keys _ e)

-- A transition to a federation that can sign succeeds, and leaves one that has the new members.
pub transition_epoch-succeeds :
    (m : FederationManager) (sid : Hash) (members : List MasternodeId) (threshold height : ℕ)
    (keys : List Bytes)
    → CanSign members threshold keys
    → HasFederation sid m
    → (n : ℕ) × (m' : FederationManager) × (transition_epoch m sid members threshold height keys
        ≡ ok (n, m'))
      × HasFederation sid m'
unfolding transition_epoch new_epoch
transition_epoch-succeeds m sid members threshold height keys c h =
    let n = (h.number + 1) % u64_mod in
    let ended = modify_epoch sid h.number (λ e. record e { end_height = some height }) m in
    (
      n,
      insert_epoch sid (new_epoch n members threshold height keys) ended,
      ground (arith, CanSign-validate_federation members threshold keys c, h.current),
      insert_epoch-HasFederation ended sid (new_epoch n members threshold height keys) refl
          (record { can_sign = c }) (end_epoch-AllFormed m sid h.number height h.formed),
    )

pub transition_epoch-HasFederation :
    (m m' : FederationManager) (sid : Hash) (members : List MasternodeId) (threshold height n : ℕ)
    (keys : List Bytes)
    → transition_epoch m sid members threshold height keys ≡ ok (n, m')
    → HasFederation sid m
    → HasFederation sid m'
transition_epoch-HasFederation m m' sid members threshold height n keys e h =
    let c = transition_epoch-CanSign m m' sid members threshold height n keys e in
    let (k, t, e', h') = transition_epoch-succeeds m sid members threshold height keys c h in
    let same : t ≡ m' = ground (arith, e, e') in subst (HasFederation sid) same h'

pub initialize_federation-HasFederation :
    (m : FederationManager) (blocks : ℕ) (sid : Hash) (members : List MasternodeId)
    (threshold height n : ℕ) (keys : List Bytes)
    → initialize_federation (new_manager blocks) sid members threshold height keys ≡ ok (n, m)
    → HasFederation sid m
unfolding initialize_federation new_epoch new_manager get_epoch get
initialize_federation-HasFederation m blocks sid members threshold height n keys e =
    let valid = validated members threshold keys _ e in
    let c = validate_federation-CanSign members threshold keys valid in
    let same : insert_epoch sid (new_epoch 1 members threshold height keys) (new_manager blocks)
        ≡ m =
      ground (arith, valid) in
    subst (HasFederation sid) same (
      insert_epoch-HasFederation (new_manager blocks) sid
        (new_epoch 1 members threshold height keys) refl (record { can_sign = c })
        (λ k e' g. absurd (cc g)))
