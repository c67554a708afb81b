-- ===== src/Validation/Votes.antt =====
-- The votes of a block: `validate_ticket_votes` of rusty-consensus/src/pos.rs, which a block's
-- validation calls, and the one of rusty-consensus/src/validation.rs.
use rusty_coin.Common.{
  ℕ, suc, ◌+◌, ◌%◌, Bool, true, false, not, ◌&&◌, List, [], ◌∷◌, leb, ltb, ◌==◌, length,
  if◌then◌else◌,
}
use rusty_coin.Common.HashMap.{get}
use rusty_coin.Common.Result.{ok, ◌>>=◌, ◌>>◌}
use rusty_coin.Common.Words.{u64_mod}
use rusty_coin.Types.Tx.{Hash, hash_key}
use rusty_coin.Types.Block.{TicketVote}
use rusty_coin.Script.Validate.{is_empty}
use rusty_coin.Slashing.Ticket.{same_hash, is_zero_hash}
use rusty_coin.Tickets.Pool.{LiveTicketsPool, TicketStatus, pending, live, voted, expired, revoked}
use rusty_coin.Validation.Context.{
  Checked, require, ok_or, no_ticket_votes, duplicate_ticket_vote, invalid_ticket_id,
  invalid_block_hash, invalid_signature, insufficient_ticket_votes, invalid_ticket_status,
  expired_ticket, invalid_vote_type,
}

-- `TICKET_EXPIRATION_BLOCKS` (rusty-consensus/src/pos_selection.rs)
abbrev pub ticket_expiration_blocks : ℕ
ticket_expiration_blocks = 40960

-- `MIN_VALID_VOTES_REQUIRED` (rusty-core/src/protocol_constants.rs)
abbrev pub min_valid_votes_required : ℕ
min_valid_votes_required = 3

abbrev pub is_live : TicketStatus → Bool
is_live pending = false
is_live live = true
is_live voted = false
is_live expired = false
is_live revoked = false

-- A hash is among those seen.
unfoldable pub seen_hash : Hash → List Hash → Bool
seen_hash hash [] = false
seen_hash hash (h ∷ hs) = let rest = seen_hash hash hs in if same_hash h hash then true else rest

-- The loop of pos.rs.
unfoldable pub check_pos_votes : LiveTicketsPool → ℕ → List Hash → ℕ → List TicketVote → Checked ℕ
unfolding seen_hash
check_pos_votes tickets height seen valid [] = ok valid
check_pos_votes tickets height seen valid (vote ∷ votes) = do
  require (not (seen_hash vote.ticket_id seen)) duplicate_ticket_vote
  ticket ← ok_or (get vote.ticket_id tickets) invalid_ticket_id
  require (is_live ticket.status) invalid_ticket_status
  require (ltb height ((ticket.height + ticket_expiration_blocks) % u64_mod)) expired_ticket
  require (leb vote.vote 2) invalid_vote_type
  check_pos_votes tickets height (vote.ticket_id ∷ seen) (suc valid) votes

-- `validate_ticket_votes` of pos.rs.
unfoldable pub validate_pos_votes : LiveTicketsPool → ℕ → List TicketVote → Checked (Unit {0})
unfolding check_pos_votes
validate_pos_votes tickets height votes = do
  require (not (is_empty votes)) no_ticket_votes
  valid ← check_pos_votes tickets height [] 0 votes
  require (leb min_valid_votes_required valid) insufficient_ticket_votes

-- A ticket and a block hash are among those seen.
unfoldable pub seen_vote : TicketVote → List TicketVote → Bool
seen_vote vote [] = false
seen_vote vote (v ∷ vs) =
    let rest = seen_vote vote vs in
    if same_hash v.ticket_id vote.ticket_id && same_hash v.block_hash vote.block_hash
    then true
    else rest

-- The loop of validation.rs.
unfoldable pub check_votes : List TicketVote → ℕ → List TicketVote → Checked ℕ
unfolding seen_vote
check_votes seen valid [] = ok valid
check_votes seen valid (vote ∷ votes) = do
  require (not (seen_vote vote seen)) duplicate_ticket_vote
  require (not (is_zero_hash vote.ticket_id)) invalid_ticket_id
  require (not (is_zero_hash vote.block_hash)) invalid_block_hash
  require (length vote.signature == 64) invalid_signature
  check_votes (vote ∷ seen) (suc valid) votes

-- `validate_ticket_votes` of validation.rs; its other arguments are unused.
unfoldable pub validate_ticket_votes : List TicketVote → Checked (Unit {0})
unfolding check_votes
validate_ticket_votes votes = do
  require (not (is_empty votes)) no_ticket_votes
  valid ← check_votes [] 0 votes
  require (leb min_valid_votes_required valid) insufficient_ticket_votes
