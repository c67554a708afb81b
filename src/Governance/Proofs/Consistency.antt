-- ===== src/Governance/Proofs/Consistency.antt =====
-- What every sequence of operations on the active proposals keeps.
use mathlib.Core.Path.{subst}
use rusty_coin.Common.{◌≡◌, refl, [], arith, All}
use rusty_coin.Common.HashMap.{
  HashMap, insert, remove, modify, AreUnique, All-insert, All-remove, All-modify, insert-AreUnique,
  remove-AreUnique, modify-AreUnique,
}
use rusty_coin.Common.Result.{ok}
use rusty_coin.Types.Tx.{Hash, hash_key}
use rusty_coin.Types.Payload.{GovernanceProposal, GovernanceVote}
use rusty_coin.Governance.Proposals.{
  ActiveProposals, no_proposals, add_proposal, record_vote, remove_proposal, remove_vote,
}

-- A vote is filed under its voter, and with the proposal that it names.
abbrev pub IsFiled : Hash → Hash × GovernanceVote → Type 0
IsFiled proposal_id entry = (entry.1.voter_id ≡ entry.0) × (entry.1.proposal_id ≡ proposal_id)

-- A proposal is filed under its identifier, with one vote of a voter at most.
abbrev pub IsEntry : Hash × (GovernanceProposal × HashMap Hash GovernanceVote) → Type 0
IsEntry entry =
    (entry.1.0.proposal_id ≡ entry.0) × (AreUnique entry.1.1 × All (IsFiled entry.0) entry.1.1)

pub record IsConsistent (s : ActiveProposals) : Type 0 where
  pub unique : AreUnique s.proposals
  pub entries : All IsEntry s.proposals

-- A change of the active proposals.
pub data Step (s : ActiveProposals) : ActiveProposals → Type 0 where
  adding : (p : GovernanceProposal) {t : ActiveProposals} → add_proposal s p ≡ ok t → Step s t
  voting : (v : GovernanceVote) {t : ActiveProposals} → record_vote s v ≡ ok t → Step s t
  removing : (id : Hash) {t : ActiveProposals} → remove_proposal s id ≡ ok t → Step s t
  unvoting : (id voter : Hash) {t : ActiveProposals} → remove_vote s id voter ≡ ok t → Step s t

pub data Reach : ActiveProposals → Type 0 where
  start : Reach no_proposals
  next : {s t : ActiveProposals} → Reach s → Step s t → Reach t

add_proposal-proposals :
    (s t : ActiveProposals) (p : GovernanceProposal)
    → add_proposal s p ≡ ok t
    → insert p.proposal_id (p, []) s.proposals ≡ t.proposals
unfolding add_proposal
add_proposal-proposals s t p e = ground arith

record_vote-proposals :
    (s t : ActiveProposals) (v : GovernanceVote)
    → record_vote s v ≡ ok t
    → modify v.proposal_id (λ entry. (entry.0, insert v.voter_id v entry.1)) s.proposals
      ≡ t.proposals
unfolding record_vote
record_vote-proposals s t v e = ground arith

remove_proposal-proposals :
    (s t : ActiveProposals) (id : Hash)
    → remove_proposal s id ≡ ok t
    → remove id s.proposals ≡ t.proposals
unfolding remove_proposal
remove_proposal-proposals s t id e = ground arith

remove_vote-proposals :
    (s t : ActiveProposals) (id voter : Hash)
    → remove_vote s id voter ≡ ok t
    → modify id (λ entry. (entry.0, remove voter entry.1)) s.proposals ≡ t.proposals
unfolding remove_vote
remove_vote-proposals s t id voter e = ground arith

abbrev Entries : HashMap Hash (GovernanceProposal × HashMap Hash GovernanceVote) → Type 0
Entries m = AreUnique m × All IsEntry m

-- A change of the votes on one proposal.
modify-Entries :
    (id : Hash) (f : HashMap Hash GovernanceVote → HashMap Hash GovernanceVote)
    (m : HashMap Hash (GovernanceProposal × HashMap Hash GovernanceVote))
    → ((votes : HashMap Hash GovernanceVote)
        → AreUnique votes × All (IsFiled id) votes
        → AreUnique (f votes) × All (IsFiled id) (f votes))
    → Entries m
    → Entries (modify id (λ entry. (entry.0, f entry.1)) m)
modify-Entries id f m keep h = (
  modify-AreUnique id (λ entry. (entry.0, f entry.1)) m h.0,
  All-modify IsEntry id (λ entry. (entry.0, f entry.1)) m h.1
      (λ entry g q. (q.0, keep entry.1 q.1)),
)

Step-Entries : {s t : ActiveProposals} → Step s t → Entries s.proposals → Entries t.proposals
Step-Entries {s} {t} (adding p e) h = subst Entries (add_proposal-proposals s t p e) (
  insert-AreUnique p.proposal_id (p, []) s.proposals h.0,
  All-insert IsEntry p.proposal_id (p, []) s.proposals (refl, (tt, tt)) h.1,
)
Step-Entries {s} {t} (voting v e) h = subst Entries (record_vote-proposals s t v e) (
    modify-Entries v.proposal_id (insert v.voter_id v) s.proposals
      (λ votes q. (
        insert-AreUnique v.voter_id v votes q.0,
        All-insert (IsFiled v.proposal_id) v.voter_id v votes (refl, refl) q.1,
      ))
      h)
Step-Entries {s} {t} (removing id e) h =
    subst Entries (remove_proposal-proposals s t id e)
      (remove-AreUnique id s.proposals h.0, All-remove IsEntry id s.proposals h.1)
Step-Entries {s} {t} (unvoting id voter e) h =
    subst Entries (remove_vote-proposals s t id voter e) (
      modify-Entries id (remove voter) s.proposals
        (λ votes q. (remove-AreUnique voter votes q.0, All-remove (IsFiled id) voter votes q.1)) h)

Reach-Entries : {s : ActiveProposals} → Reach s → Entries s.proposals
unfolding no_proposals
Reach-Entries start = (tt, tt)
Reach-Entries (next r st) = Step-Entries st (Reach-Entries r)

-- Whatever operations succeed, in any order, every proposal stands once, under its identifier, and
-- holds one vote of a voter at most, each filed under its voter and cast on that proposal.
pub Reach-IsConsistent : {s : ActiveProposals} → Reach s → IsConsistent s
Reach-IsConsistent r =
    let (unique, entries) = Reach-Entries r in record { unique = unique; entries = entries }
