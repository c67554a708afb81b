-- ===== src/Governance/Proposals.antt =====
-- `ActiveProposals`: the proposals under their identifiers, each with its votes under their voters.
use Prim.Native.String.{String}
use rusty_coin.Common.{
  ℕ, ◌+◌, Bool, false, not, ◌&&◌, ◌||◌, Option, none, some, [], ◌∷◌, ltb, if◌then◌else◌,
}
use rusty_coin.Common.HashMap.{HashMap, get, insert, remove, modify, contains_key}
use rusty_coin.Common.Result.{Result, ok, err}
use rusty_coin.Types.Tx.{Hash, hash_key}
use rusty_coin.Types.Payload.{
  GovernanceProposal, GovernanceVote, VoteChoice, yes_vote, no_vote, abstain,
}

-- `VoterType` of governance_state.rs, which a vote does not carry.
pub data VoterClass : Type 0 where
  pos masternode : VoterClass

-- Of `ConsensusError`, what this file constructs.
pub data ProposalError : Type 0 where
  proposal_already_exists : Hash → ProposalError
  proposal_not_found : Hash → ProposalError
  duplicate_governance_vote : Hash → Hash → ProposalError
  vote_not_found : Hash → Hash → ProposalError
  internal : String → ProposalError

pub data ProposalOutcome : Type 0 where
  passed : ProposalOutcome
  rejected : String → ProposalOutcome
  in_progress : ProposalOutcome
  expired : ProposalOutcome

pub record ActiveProposals : Type 0 where
  pub proposals : HashMap Hash (GovernanceProposal × HashMap Hash GovernanceVote)

-- `ActiveProposals::new`
unfoldable pub no_proposals : ActiveProposals
no_proposals = record { proposals = [] }

unfoldable pub add_proposal :
    ActiveProposals → GovernanceProposal → Result ProposalError ActiveProposals
add_proposal s proposal =
    if contains_key proposal.proposal_id s.proposals
    then err (proposal_already_exists proposal.proposal_id)
    else ok (record { proposals = insert proposal.proposal_id (proposal, []) s.proposals })

unfoldable pub record_vote : ActiveProposals → GovernanceVote → Result ProposalError ActiveProposals
record_vote s vote = elim (get vote.proposal_id s.proposals) [
  | none ↦ err (proposal_not_found vote.proposal_id)
  | some (proposal, votes) ↦
      if contains_key vote.voter_id votes
      then err (duplicate_governance_vote vote.proposal_id vote.voter_id)
      else ok (record {
        proposals =
            modify vote.proposal_id (λ entry. (entry.0, insert vote.voter_id vote entry.1))
              s.proposals;
      })
]

unfoldable pub get_proposal : ActiveProposals → Hash → Option GovernanceProposal
get_proposal s proposal_id = elim (get proposal_id s.proposals) [
  | none ↦ none
  | some (proposal, votes) ↦ some proposal
]

unfoldable pub get_votes_for_proposal :
    ActiveProposals → Hash → Option (HashMap Hash GovernanceVote)
get_votes_for_proposal s proposal_id = elim (get proposal_id s.proposals) [
  | none ↦ none
  | some (proposal, votes) ↦ some votes
]

unfoldable pub remove_proposal : ActiveProposals → Hash → Result ProposalError ActiveProposals
remove_proposal s proposal_id =
    if contains_key proposal_id s.proposals
    then ok (record { proposals = remove proposal_id s.proposals })
    else err (proposal_not_found proposal_id)

unfoldable pub remove_vote : ActiveProposals → Hash → Hash → Result ProposalError ActiveProposals
remove_vote s proposal_id voter_id = elim (get proposal_id s.proposals) [
  | none ↦ err (proposal_not_found proposal_id)
  | some (proposal, votes) ↦
      if contains_key voter_id votes
      then ok (record {
        proposals = modify proposal_id (λ entry. (entry.0, remove voter_id entry.1)) s.proposals;
      })
      else err (vote_not_found proposal_id voter_id)
]

-- The six counters of `evaluate_proposal_at_height`. There are fewer votes than a counter holds.
pub record Tally : Type 0 where
  pub pos_yes : ℕ
  pub pos_no : ℕ
  pub pos_abstain : ℕ
  pub mn_yes : ℕ
  pub mn_no : ℕ
  pub mn_abstain : ℕ

abbrev pub zero_tally : Tally
zero_tally = record {
  pos_yes = 0;
  pos_no = 0;
  pos_abstain = 0;
  mn_yes = 0;
  mn_no = 0;
  mn_abstain = 0;
}

-- The body of the loop over the votes.
unfoldable pub count_vote : Option VoterClass → VoteChoice → Tally → Tally
count_vote (some pos) yes_vote t = record t { pos_yes = t.pos_yes + 1 }
count_vote (some pos) no_vote t = record t { pos_no = t.pos_no + 1 }
count_vote (some pos) abstain t = record t { pos_abstain = t.pos_abstain + 1 }
count_vote (some masternode) yes_vote t = record t { mn_yes = t.mn_yes + 1 }
count_vote (some masternode) no_vote t = record t { mn_no = t.mn_no + 1 }
count_vote (some masternode) abstain t = record t { mn_abstain = t.mn_abstain + 1 }
count_vote none choice t = t

unfoldable pub count_votes : HashMap Hash VoterClass → HashMap Hash GovernanceVote → Tally → Tally
unfolding count_vote
count_votes voter_types [] t = t
count_votes voter_types ((voter_id, vote) ∷ votes) t =
    count_votes voter_types votes (count_vote (get voter_id voter_types) vote.vote_choice t)

-- The four limits of an evaluation, numbers of `f64`.
pub record Limits (F : Type 0) : Type 0 where
  pub pos_quorum_percentage : F
  pub mn_quorum_percentage : F
  pub pos_approval_percentage : F
  pub mn_approval_percentage : F

-- `ratio a b p` is `a as f64 / b as f64 >= p`, for a `b` that is not zero.
module _ {F : Type 0} (ratio : ℕ → ℕ → F → Bool) where
  -- A share of nothing meets no limit.
  unfoldable pub is_met : ℕ → ℕ → F → Bool
  is_met cast total percentage = if ltb 0 total then ratio cast total percentage else false

  unfoldable pub check_quorum_and_supermajority :
      (pos_yes pos_no mn_yes mn_no live_tickets_count active_masternode_count : ℕ)
      → Limits F
      → ProposalOutcome
  unfolding is_met
  check_quorum_and_supermajority pos_yes pos_no mn_yes mn_no live_tickets_count
        active_masternode_count limits =
      let pos_quorum_met =
        is_met (pos_yes + pos_no) live_tickets_count limits.pos_quorum_percentage in
      let mn_quorum_met =
        is_met (mn_yes + mn_no) active_masternode_count limits.mn_quorum_percentage in
      let pos_approval_met = is_met pos_yes (pos_yes + pos_no) limits.pos_approval_percentage in
      let mn_approval_met = is_met mn_yes (mn_yes + mn_no) limits.mn_approval_percentage in
      if not pos_quorum_met || not mn_quorum_met
      then rejected "Quorum not met"
      else if pos_approval_met && mn_approval_met
      then passed
      else rejected "Supermajority not met"

  unfoldable pub evaluate_proposal_at_height :
      ActiveProposals
      → Hash
      → (current_height live_tickets_count active_masternode_count : ℕ) → Limits F
      → HashMap Hash VoterClass
      → Result ProposalError ProposalOutcome
  unfolding check_quorum_and_supermajority count_votes get_proposal get_votes_for_proposal
  evaluate_proposal_at_height s proposal_id current_height live_tickets_count
        active_masternode_count limits voter_types =
      elim (get_proposal s proposal_id) [
        | none ↦ err (internal "Proposal not found for evaluation.")
        | some proposal ↦
            if ltb current_height proposal.start_block_height
            then ok in_progress
            else if ltb proposal.end_block_height current_height
            then ok expired
            else elim (get_votes_for_proposal s proposal_id) [
              | none ↦ err (internal "Votes not found for proposal.")
              | some votes ↦
                  let t = count_votes voter_types votes zero_tally in
                  ok (
                    check_quorum_and_supermajority t.pos_yes t.pos_no t.mn_yes t.mn_no
                      live_tickets_count active_masternode_count limits)
            ]
      ]
