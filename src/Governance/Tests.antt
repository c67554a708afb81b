-- ===== src/Governance/Tests.antt =====
-- Two nodes that record the same two votes in the two orders.
use rusty_coin.Common.{
  ℕ, ◌+◌, ◌≤◌, ◌*◌, Bool, List, [], ◌∷◌, Option, none, some, ◌≡◌, refl, arith, leb,
}
use rusty_coin.Common.HashMap.{HashMap, get, insert, modify, remove}
use rusty_coin.Common.Result.{ok, err}
use rusty_coin.Types.Tx.{Hash, hash_key}
use rusty_coin.Types.Payload.{
  GovernanceProposal, GovernanceVote, VoteChoice, parameter_change, pos_ticket, yes_vote, no_vote,
}
use rusty_coin.Governance.Proposals.{
  VoterClass, pos, masternode, ActiveProposals, no_proposals, add_proposal, record_vote, Limits,
  duplicate_governance_vote, passed, evaluate_proposal_at_height,
}
use rusty_coin.Governance.Proofs.Consistency.{start, next, adding, voting}
use rusty_coin.Governance.Proofs.Counting.{evaluate_proposal_at_height_agree}

abbrev proposal : GovernanceProposal
proposal = record {
  proposal_id = 7 ∷ [];
  proposer_address = [];
  proposal_type = parameter_change;
  start_block_height = 100;
  end_block_height = 200;
  title = "fees";
  description_hash = [];
  code_change_hash = none;
  target_parameter = none;
  new_value = none;
  bug_description = none;
  recipient_address = none;
  amount = none;
  project_description = none;
  proposer_signature = record { bytes = [] };
  inputs = [];
  outputs = [];
  lock_time = 0;
  witness = [];
  fee = 1;
}

abbrev cast : ℕ → VoteChoice → GovernanceVote
cast voter choice = record {
  proposal_id = 7 ∷ [];
  voter_type = pos_ticket;
  voter_id = voter ∷ [];
  vote_choice = choice;
  voter_signature = record { bytes = [] };
  inputs = [];
  outputs = [];
  lock_time = 0;
  witness = [];
  fee = 1;
}

abbrev holding : List (Hash × GovernanceVote) → ActiveProposals
holding votes = record { proposals = (7 ∷ [], (proposal, votes)) ∷ [] }

abbrev one : Hash × GovernanceVote
one = (1 ∷ [], cast 1 yes_vote)

abbrev two : Hash × GovernanceVote
two = (2 ∷ [], cast 2 yes_vote)

added : add_proposal no_proposals proposal ≡ ok (holding [])
unfolding add_proposal get no_proposals insert remove
added = refl

one_first : record_vote (holding []) (cast 1 yes_vote) ≡ ok (holding (one ∷ []))
unfolding record_vote get hash_key rusty_coin.Common.ℕ_discrete modify insert remove
one_first = refl

then_two : record_vote (holding (one ∷ [])) (cast 2 yes_vote) ≡ ok (holding (two ∷ one ∷ []))
unfolding record_vote get hash_key rusty_coin.Common.ℕ_discrete modify insert remove
then_two = refl

two_first : record_vote (holding []) (cast 2 yes_vote) ≡ ok (holding (two ∷ []))
unfolding record_vote get hash_key rusty_coin.Common.ℕ_discrete modify insert remove
two_first = refl

then_one : record_vote (holding (two ∷ [])) (cast 1 yes_vote) ≡ ok (holding (one ∷ two ∷ []))
unfolding record_vote get hash_key rusty_coin.Common.ℕ_discrete modify insert remove
then_one = refl

once :
    record_vote (holding (one ∷ [])) (cast 1 no_vote)
    ≡ err (duplicate_governance_vote (7 ∷ []) (1 ∷ []))
unfolding record_vote get hash_key rusty_coin.Common.ℕ_discrete
once = refl

found : get (7 ∷ []) (holding (two ∷ one ∷ [])).proposals ≡ some (proposal, two ∷ one ∷ [])
unfolding get hash_key rusty_coin.Common.ℕ_discrete
found = refl

found_again : get (7 ∷ []) (holding (one ∷ two ∷ [])).proposals ≡ some (proposal, one ∷ two ∷ [])
unfolding get hash_key rusty_coin.Common.ℕ_discrete
found_again = refl

same_votes : (voter : Hash) → get voter (two ∷ one ∷ []) ≡ get voter (one ∷ two ∷ [])
unfolding get
same_votes voter = ground arith

-- Percentages of whole numbers.
abbrev ratio : ℕ → ℕ → ℕ → Bool
ratio a b p = leb (p * b) (100 * a)

abbrev limits : Limits ℕ
limits = record {
  pos_quorum_percentage = 10;
  mn_quorum_percentage = 10;
  pos_approval_percentage = 50;
  mn_approval_percentage = 50;
}

abbrev classes : HashMap Hash VoterClass
classes = (1 ∷ [], pos) ∷ (2 ∷ [], masternode) ∷ []

passes :
    evaluate_proposal_at_height ratio (holding (one ∷ two ∷ [])) (7 ∷ []) 150 5 5 limits classes
    ≡ ok passed
unfolding evaluate_proposal_at_height get hash_key rusty_coin.Common.ℕ_discrete
passes = refl

evaluate_proposal_at_height_agree_example :
    evaluate_proposal_at_height ratio (holding (two ∷ one ∷ [])) (7 ∷ []) 150 5 5 limits classes
    ≡ evaluate_proposal_at_height ratio (holding (one ∷ two ∷ [])) (7 ∷ []) 150 5 5 limits classes
evaluate_proposal_at_height_agree_example =
    evaluate_proposal_at_height_agree ratio (7 ∷ []) 150 5 5 limits classes
      (next (next (next start (adding proposal added)) (voting (cast 1 yes_vote) one_first))
        (voting (cast 2 yes_vote) then_two))
      (next (next (next start (adding proposal added)) (voting (cast 2 yes_vote) two_first))
        (voting (cast 1 yes_vote) then_one))
      found found_again same_votes
