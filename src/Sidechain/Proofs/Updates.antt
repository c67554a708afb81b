-- ===== src/Sidechain/Proofs/Updates.antt =====
-- The updates of the federations that governance has approved.
use Prim.Native.String.{String}
use mathlib.Core.Path.{subst}
use rusty_coin.Common.{ℕ, ◌≡◌, ◌≢◌, refl, sym, some, List, [], ◌∷◌, arith, All}
use rusty_coin.Common.HashMap.{
  HashMap, get, modify, remove, get-modify, get-remove, AreUnique, remove-AreUnique,
}
use rusty_coin.Common.Result.{ok}
use rusty_coin.Common.Words.{Bytes}
use rusty_coin.Types.Tx.{Hash, hash_key}
use rusty_coin.Types.Payload.{MasternodeId}
use rusty_coin.Sidechain.Federation.{FederationManager}
use rusty_coin.Sidechain.Integrator.{
  FederationUpdateProposal, FederationIntegrator, transition_federation, Applied, apply_updates,
}
use rusty_coin.Sidechain.Proofs.Epochs.{CanSign, HasFederation, transition_epoch-succeeds}

-- Every sidechain has its federation, and every update that waits can be applied to it.
pub record IsCoordinated (s : FederationIntegrator) : Type 0 where
  pub managed :
      (sid : Hash) (m : FederationManager)
      → get sid s.federation_managers ≡ some m
      → HasFederation sid m
  pub proposed :
      (id : Hash) (p : FederationUpdateProposal)
      → get id s.pending_updates ≡ some p
      → CanSign p.new_members p.new_threshold p.new_public_keys
        × ((m : FederationManager) × (get p.sidechain_id s.federation_managers ≡ some m))

-- The manager of one sidechain gives way to another.
abbrev pub with_manager : FederationIntegrator → Hash → FederationManager → FederationIntegrator
with_manager s sid m = record s { federation_managers = modify sid (λ _. m) s.federation_managers }

pub with_manager-IsCoordinated :
    (s : FederationIntegrator) (sid : Hash) (m m' : FederationManager)
    → get sid s.federation_managers ≡ some m
    → HasFederation sid m'
    → IsCoordinated s
    → IsCoordinated (with_manager s sid m')
with_manager-IsCoordinated s sid m m' there h c = record {
  managed = λ k n e.
      let seen = get-modify sid k (λ _. m') s.federation_managers in
      elim (hash_key.eq sid k) [
        | yes p ↦
            let same : m' ≡ n = ground (arith, seen) in
            subst (λ x. HasFederation k x) same (subst (λ x. HasFederation x m') p h)
        | no p ↦ c.managed k n (ground (arith, seen))
      ];
  proposed = λ id p e.
      let (can, (n, found)) = c.proposed id p e in
      let seen = get-modify sid p.sidechain_id (λ _. m') s.federation_managers in
      elim (hash_key.eq sid p.sidechain_id) [
        | yes q ↦ (can, (m', ground (arith, seen)))
        | no q ↦ (can, (n, ground (arith, seen)))
      ];
}

-- With a federation that can sign, the transition succeeds.
pub transition_federation-succeeds :
    (s : FederationIntegrator) (missing : String) (sid : Hash) (m : FederationManager)
    (members : List MasternodeId) (threshold height : ℕ) (keys : List Bytes)
    → CanSign members threshold keys
    → get sid s.federation_managers ≡ some m
    → IsCoordinated s
    → (n : ℕ) × (s' : FederationIntegrator) × (transition_federation s missing sid members threshold
          height keys
        ≡ ok (n, s'))
      × (s'.pending_updates ≡ s.pending_updates)
      × IsCoordinated s'
unfolding transition_federation
transition_federation-succeeds s missing sid m members threshold height keys can there c =
    let h = c.managed sid m there in
    let (n, m', done, h') = transition_epoch-succeeds m sid members threshold height keys can h in
    (
      n,
      with_manager s sid m',
      ground (arith, there, done),
      refl,
      with_manager-IsCoordinated s sid m m' there h' c,
    )

abbrev take_update : FederationIntegrator → Hash → FederationIntegrator
take_update s id = record s { pending_updates = remove id s.pending_updates }

take_update-IsCoordinated :
    (s : FederationIntegrator) (id : Hash) → IsCoordinated s → IsCoordinated (take_update s id)
take_update-IsCoordinated s id c = record {
  managed = c.managed;
  proposed = λ k p e. c.proposed k p (ground (arith, get-remove id k s.pending_updates));
}

abbrev pub Waits : HashMap Hash FederationUpdateProposal → Hash → Type 0
Waits pending id = (p : FederationUpdateProposal) × (get id pending ≡ some p)

-- No identifier stands twice.
abbrev pub AreDistinct : List Hash → Type 0
AreDistinct [] = Unit {0}
AreDistinct (id ∷ ids) = All (λ y. y ≢ id) ids × AreDistinct ids

Waits-remove :
    (pending : HashMap Hash FederationUpdateProposal) (id : Hash) (ids : List Hash)
    → All (λ y. y ≢ id) ids
    → All (Waits pending) ids
    → All (Waits (remove id pending)) ids
Waits-remove pending id [] d w = tt
Waits-remove pending id (y ∷ ids) d ((p, e), w) =
    ((p, ground (arith, d.0, get-remove id y pending)), Waits-remove pending id ids d.1 w)

-- The outcome of the loop.
pub record IsApplied (s : FederationIntegrator) (ids : List Hash) (a : Applied) : Type 0 where
  pub all : a.updates ≡ ok ids
  pub coordinated : IsCoordinated a.state
  pub left :
      (id : Hash) (p : FederationUpdateProposal)
      → get id a.state.pending_updates ≡ some p
      → (get id s.pending_updates ≡ some p) × All (λ y. y ≢ id) ids
  pub unique : AreUnique s.pending_updates → AreUnique a.state.pending_updates

apply_updates_step :
    (height : ℕ) (id : Hash) (ids : List Hash) (s s' : FederationIntegrator)
    (p : FederationUpdateProposal) (n : ℕ)
    → get id s.pending_updates ≡ some p
    → transition_federation
        (take_update s id)
        "Federation manager not found"
        p.sidechain_id
        p.new_members
        p.new_threshold
        height
        p.new_public_keys
      ≡ ok (n, s')
    → (apply_updates height ids s').updates ≡ ok ids
    → record { state = (apply_updates height ids s').state; updates = ok (id ∷ ids) }
      ≡ apply_updates height (id ∷ ids) s
unfolding apply_updates
apply_updates_step height id ids s s' p n e t r = ground arith

pub apply_updates-IsApplied :
    (height : ℕ) (ids : List Hash) (s : FederationIntegrator)
    → AreDistinct ids
    → All (Waits s.pending_updates) ids
    → IsCoordinated s
    → IsApplied s ids (apply_updates height ids s)
unfolding apply_updates
apply_updates-IsApplied height [] s d w c = record {
  all = refl;
  coordinated = c;
  left = λ id p e. (e, tt);
  unique = λ u. u;
}
apply_updates-IsApplied height (id ∷ ids) s d ((p, e), w) c =
    let taken = take_update s id in
    let (can, (m, there)) = c.proposed id p e in
    let (n, s', t, kept, c') =
      transition_federation-succeeds taken "Federation manager not found" p.sidechain_id m
        p.new_members p.new_threshold height p.new_public_keys can there
        (take_update-IsCoordinated s id c) in
    let waits : All (Waits s'.pending_updates) ids =
      subst (λ pending. All (Waits pending) ids) (sym kept)
        (Waits-remove s.pending_updates id ids d.0 w) in
    let r = apply_updates-IsApplied height ids s' d.1 waits c' in
    subst (IsApplied s (id ∷ ids)) (apply_updates_step height id ids s s' p n e t r.all) (record {
      all = refl;
      coordinated = r.coordinated;
      left = λ k q g.
          let (before, others) = r.left k q g in
          let still : get k (remove id s.pending_updates) ≡ some q = ground (arith, before, kept) in
          (
            ground (arith, get-remove id k s.pending_updates),
            (ground (arith, get-remove id k s.pending_updates), others),
          );
      unique = λ u. r.unique (subst AreUnique (sym kept) (remove-AreUnique id s.pending_updates u));
    })
