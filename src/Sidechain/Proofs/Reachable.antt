-- ===== src/Sidechain/Proofs/Reachable.antt =====
-- What every sequence of operations of the integrator keeps.
use rusty_coin.Common.{ℕ, ◌≤◌, ◌<◌, ◌≡◌, none, some, List, [], arith, length}
use rusty_coin.Common.HashMap.{get}
use rusty_coin.Common.Result.{ok}
use rusty_coin.Common.Words.{Bytes}
use rusty_coin.Types.Tx.{Hash, hash_key}
use rusty_coin.Types.Payload.{MasternodeId}
use rusty_coin.Governance.Proposals.{ActiveProposals}
use rusty_coin.Sidechain.Federation.{FederationEpoch, FederationManager, get_current_epoch}
use rusty_coin.Sidechain.Integrator.{
  FederationUpdateProposal, FederationIntegrator, new_integrator, with_mainchain_governance,
  initialize_sidechain_federation, propose_federation_update, ready_updates, apply_pending_updates,
  emergency_federation_update, current_federation,
}
use rusty_coin.Sidechain.Proofs.Updates.{Waits, IsApplied, apply_updates-IsApplied}
use rusty_coin.Sidechain.Proofs.Due.{
  ready_updates-All, ready_updates-AreDistinct, All-Waits, ready_updates-others, ready_updates-none,
}
use rusty_coin.Sidechain.Proofs.Coordination.{
  IsInvariant, initialised-IsInvariant, proposing-IsInvariant, emergency-IsInvariant,
}

-- A change of the integrator.
pub data Step (s : FederationIntegrator) : FederationIntegrator → Type 0 where
  governed : (g : ActiveProposals) → Step s (with_mainchain_governance s g)
  initialised :
      (sid : Hash) (members : List MasternodeId) (threshold : ℕ) (keys : List Bytes)
      (start blocks : ℕ) {t : FederationIntegrator}
      → initialize_sidechain_federation s sid members threshold keys start blocks ≡ ok t
      → Step s t
  proposing :
      (p : FederationUpdateProposal) (height : ℕ) {t : FederationIntegrator}
      → propose_federation_update s p height ≡ ok t
      → Step s t
  applying : (height : ℕ) → Step s (apply_pending_updates s height).state
  emergency :
      (sid : Hash) (members : List MasternodeId) (threshold : ℕ) (keys : List Bytes) (height n : ℕ)
      {t : FederationIntegrator}
      → emergency_federation_update s sid members threshold keys height ≡ ok (n, t)
      → Step s t

pub data Reach : FederationIntegrator → Type 0 where
  start : Reach new_integrator
  next : {s t : FederationIntegrator} → Reach s → Step s t → Reach t

-- Every update that is due is applied, and none that is due is left.
apply_pending_updates-IsApplied :
    (height : ℕ) (s : FederationIntegrator)
    → IsInvariant s
    → IsApplied s (ready_updates height s.pending_updates) (apply_pending_updates s height)
unfolding apply_pending_updates
apply_pending_updates-IsApplied height s i =
    apply_updates-IsApplied height (ready_updates height s.pending_updates) s
      (ready_updates-AreDistinct height s.pending_updates i.unique)
      (ready_updates-All (Waits s.pending_updates) height s.pending_updates
        (All-Waits s.pending_updates s.pending_updates (λ id w. w)))
      i.coordinated

applying-IsInvariant :
    (height : ℕ) (s : FederationIntegrator)
    → IsInvariant s
    → IsInvariant (apply_pending_updates s height).state
applying-IsInvariant height s i =
    let r = apply_pending_updates-IsApplied height s i in
    record { coordinated = r.coordinated; unique = r.unique i.unique }

Step-IsInvariant : {s t : FederationIntegrator} → Step s t → IsInvariant s → IsInvariant t
unfolding with_mainchain_governance
Step-IsInvariant (governed g) i = record {
  coordinated = record { managed = i.coordinated.managed; proposed = i.coordinated.proposed };
  unique = i.unique;
}
Step-IsInvariant {s} {t} (initialised sid members threshold keys from blocks e) i =
    initialised-IsInvariant s t sid members threshold keys from blocks e i
Step-IsInvariant {s} {t} (proposing p height e) i = proposing-IsInvariant s t p height e i
Step-IsInvariant {s} (applying height) i = applying-IsInvariant height s i
Step-IsInvariant {s} {t} (emergency sid members threshold keys height n e) i =
    emergency-IsInvariant s t sid members threshold keys height n e i

Reach-IsInvariant : {s : FederationIntegrator} → Reach s → IsInvariant s
unfolding new_integrator get
Reach-IsInvariant start = record {
  coordinated = record { managed = λ sid m e. absurd (cc e); proposed = λ id p e. absurd (cc e) };
  unique = tt;
}
Reach-IsInvariant (next r st) = Step-IsInvariant st (Reach-IsInvariant r)

-- Whatever sequence of operations has led to a state: every registered sidechain has a current
-- epoch, which has not ended, and whose threshold is positive, at most the number of its members,
-- and met by as many keys.
pub Reach-current_federation :
    {s : FederationIntegrator} (sid : Hash) {m : FederationManager}
    → Reach s
    → get sid s.federation_managers ≡ some m
    → (e : FederationEpoch) × (current_federation s sid ≡ some e)
      × (e.end_height ≡ none)
      × (0 < e.threshold)
      × (e.threshold ≤ length e.members)
      × (length e.public_keys ≡ length e.members)
unfolding current_federation get_current_epoch
Reach-current_federation {s} sid {m} r there =
    let h = (Reach-IsInvariant r).coordinated.managed sid m there in
    let (_, f) = h.formed h.number h.epoch h.found in
    (
      h.epoch,
      ground (arith, there, h.current, h.found),
      h.open_ended,
      f.can_sign.positive,
      omega (arith, f.can_sign.reachable),
      f.can_sign.keys,
    )

pub Reach-apply_pending_updates :
    {s : FederationIntegrator} (height : ℕ)
    → Reach s
    → ((apply_pending_updates s height).updates ≡ ok (ready_updates height s.pending_updates))
      × (ready_updates height (apply_pending_updates s height).state.pending_updates ≡ [])
Reach-apply_pending_updates {s} height r =
    let i = Reach-IsInvariant r in
    let a = apply_pending_updates-IsApplied height s i in
    (
      a.all,
      ready_updates-none height (apply_pending_updates s height).state.pending_updates
          (a.unique i.unique)
          (λ id p e.
            let (before, others) = a.left id p e in
            ready_updates-others height s.pending_updates id p others before),
    )
