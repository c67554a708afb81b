-- ===== src/Governance/Proofs/Counting.antt =====
-- The tally of the votes, over the map that holds them.
use rusty_coin.Common.{ℕ, ◌≡◌, refl, sym, ◌∙◌, Bool, Option, some, [], ◌∷◌, arith}
use rusty_coin.Common.HashMap.{
  HashMap, get, remove, AreUnique, All-get, get_of_Absent, get-remove, remove-AreUnique,
  remove_of_Absent, get_self,
}
use rusty_coin.Types.Tx.{Hash, hash_key}
use rusty_coin.Types.Payload.{GovernanceProposal, GovernanceVote, VoteChoice}
use rusty_coin.Governance.Proofs.Consistency.{IsEntry, Reach, Reach-IsConsistent}
use rusty_coin.Governance.Proposals.{
  VoterClass, ActiveProposals, Tally, zero_tally, count_vote, count_votes, Limits, get_proposal,
  get_votes_for_proposal, evaluate_proposal_at_height,
}

count_vote_comm :
    (c d : Option VoterClass) (a b : VoteChoice) (t : Tally)
    → count_vote c a (count_vote d b t) ≡ count_vote d b (count_vote c a t)
unfolding count_vote
count_vote_comm c d a b t = ground arith

-- The vote of a voter may be counted first.
count_votes-remove :
    (types : HashMap Hash VoterClass) (k : Hash) (v : GovernanceVote)
    (votes : HashMap Hash GovernanceVote) (t : Tally)
    → AreUnique votes
    → get k votes ≡ some v
    → count_votes types votes t
      ≡ count_votes types (remove k votes) (count_vote (get k types) v.vote_choice t)
unfolding count_votes get remove
count_votes-remove types k v [] t u e = absurd (cc e)
count_votes-remove types k v ((j, w) ∷ votes) t u e = elim (hash_key.eq j k) [
  | yes p ↦ ground (arith, remove_of_Absent j votes u.0)
  | no p ↦ ground (
    arith,
    count_votes-remove types k v votes (count_vote (get j types) w.vote_choice t) u.1,
    count_vote_comm (get k types) (get j types) v.vote_choice w.vote_choice t,
  )
]

-- The same votes, whatever their order, give the same tally.
count_votes-get :
    (types : HashMap Hash VoterClass) (votes votes' : HashMap Hash GovernanceVote) (t : Tally)
    → AreUnique votes
    → AreUnique votes'
    → ((k : Hash) → get k votes ≡ get k votes')
    → count_votes types votes t ≡ count_votes types votes' t
unfolding count_votes get
count_votes-get types [] [] t u u' same = refl
count_votes-get types [] ((j, w) ∷ votes') t u u' same = absurd (cc (same j, get_self j w votes'))
count_votes-get types ((k, v) ∷ votes) votes' t u u' same =
    let e : get k votes' ≡ some v = sym (same k) ∙ get_self k v votes in
    count_votes-get types votes (remove k votes') (count_vote (get k types) v.vote_choice t) u.1
      (remove-AreUnique k votes' u')
      (λ j. elim (hash_key.eq k j) [
        | yes p ↦ ground (arith, get-remove k j votes', get_of_Absent k votes u.0)
        | no p ↦ ground (arith, get-remove k j votes', same j)
      ])
    ∙ sym (count_votes-remove types k v votes' t u' e)

votes_unique :
    {s : ActiveProposals} (id : Hash) {proposal : GovernanceProposal}
    {votes : HashMap Hash GovernanceVote}
    → Reach s
    → get id s.proposals ≡ some (proposal, votes)
    → AreUnique votes
votes_unique {s} id r e = (All-get IsEntry id s.proposals (Reach-IsConsistent r).entries e).1.0

-- Two nodes that reached, in whatever ways, the same proposal with the same vote of each voter
-- evaluate it alike at every height, whatever the order in which their maps are iterated.
pub evaluate_proposal_at_height_agree :
    {F : Type 0} (ratio : ℕ → ℕ → F → Bool) {s t : ActiveProposals} (id : Hash)
    {proposal : GovernanceProposal} {votes votes' : HashMap Hash GovernanceVote}
    (height live_tickets masternodes : ℕ) (limits : Limits F) (types : HashMap Hash VoterClass)
    → Reach s
    → Reach t
    → get id s.proposals ≡ some (proposal, votes)
    → get id t.proposals ≡ some (proposal, votes')
    → ((voter : Hash) → get voter votes ≡ get voter votes')
    → evaluate_proposal_at_height ratio s id height live_tickets masternodes limits types
      ≡ evaluate_proposal_at_height ratio t id height live_tickets masternodes limits types
unfolding evaluate_proposal_at_height get_proposal get_votes_for_proposal
evaluate_proposal_at_height_agree ratio id {votes = votes} {votes' = votes'} height live_tickets
      masternodes limits types r r' e e' same =
    let tally =
      count_votes-get types votes votes' zero_tally (votes_unique id r e) (votes_unique id r' e')
        same in
    ground (arith, tally)
