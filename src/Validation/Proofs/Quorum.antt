-- ===== src/Validation/Proofs/Quorum.antt =====
-- The votes that a block may carry.
use rusty_coin.Common.{
  ℕ, suc, ◌+◌, ◌%◌, ◌<◌, ◌≤◌, ◌≡◌, ◌↔◌, refl, sym, ap, ◌∙◌, arith, true, false, not, some, List, [],
  ◌∷◌, inl, inr, All, length, Option-cases,
}
use rusty_coin.Common.HashMap.{get}
use rusty_coin.Common.Result.{ok, >>=-eq-ok}
use rusty_coin.Common.Words.{u64_mod}
use rusty_coin.Types.Tx.{Hash, Hash-discrete, hash_key}
use rusty_coin.Types.Block.{TicketVote}
use rusty_coin.Script.Validate.{is_empty}
use rusty_coin.Tickets.Pool.{
  Ticket, LiveTicketsPool, TicketStatus, pending, live, voted, expired, revoked,
}
use rusty_coin.Validation.Context.{require->>=, no_ticket_votes}
use rusty_coin.Validation.Votes.{
  ticket_expiration_blocks, is_live, seen_hash, check_pos_votes, validate_pos_votes,
}

-- How often a ticket votes, and how often it stands in a list.
unfoldable pub times_voted : Hash → List TicketVote → ℕ
times_voted id [] = 0
times_voted id (vote ∷ votes) =
    let rest = times_voted id votes in
    elim (Hash-discrete vote.ticket_id id) [ yes p ↦ suc rest | no p ↦ rest ]

unfoldable times_seen : Hash → List Hash → ℕ
times_seen id [] = 0
times_seen id (hash ∷ hashes) =
    let rest = times_seen id hashes in
    elim (Hash-discrete hash id) [ yes p ↦ suc rest | no p ↦ rest ]

-- The vote is one of the three, of a live ticket that has not expired at this height.
abbrev pub CanVote : LiveTicketsPool → ℕ → TicketVote → Type 0
CanVote tickets height vote =
    (ticket : Ticket) × (get vote.ticket_id tickets ≡ some ticket)
    × (ticket.status ≡ live)
    × (height < (ticket.height + 40960) % u64_mod)
    × (vote.vote ≤ 2)

pub record IsQuorum (tickets : LiveTicketsPool) (height : ℕ) (votes : List TicketVote)
    : Type 0 where
  pub enough : 3 ≤ length votes
  pub once : (id : Hash) → times_voted id votes ≤ 1
  pub can_vote : All (CanVote tickets height) votes

seen_hash_iff :
    (id : Hash) (hashes : List Hash) → (seen_hash id hashes ≡ false) ↔ (times_seen id hashes ≡ 0)
unfolding seen_hash times_seen
seen_hash_iff id [] = ground arith
seen_hash_iff id (hash ∷ hashes) = elim (Hash-discrete hash id) [
  | yes p ↦ ground (arith, p)
  | no p ↦ ground (arith, p, seen_hash_iff id hashes)
]

is_live_iff : (s : TicketStatus) → (is_live s ≡ true) ↔ (s ≡ live)
is_live_iff pending = (λ h. absurd (cc h), λ h. ap is_live h)
is_live_iff live = (λ h. refl, λ h. refl)
is_live_iff voted = (λ h. absurd (cc h), λ h. ap is_live h)
is_live_iff expired = (λ h. absurd (cc h), λ h. ap is_live h)
is_live_iff revoked = (λ h. absurd (cc h), λ h. ap is_live h)

-- One step of the loop.
check_pos_votes_iff :
    (tickets : LiveTicketsPool) (height : ℕ) (seen : List Hash) (valid : ℕ) (vote : TicketVote)
    (votes : List TicketVote) (n : ℕ)
    → (check_pos_votes tickets height seen valid (vote ∷ votes) ≡ ok n) ↔ (
        (seen_hash vote.ticket_id seen ≡ false)
        × CanVote tickets height vote
        × (check_pos_votes tickets height (vote.ticket_id ∷ seen) (suc valid) votes ≡ ok n))
unfolding check_pos_votes
check_pos_votes_iff tickets height seen valid vote votes n =
    elim (Option-cases (get vote.ticket_id tickets)) [
      | inl e ↦ ground (arith, e)
      | inr (t, e) ↦ (
        λ h.
            let (s, l, x, v, k) : (seen_hash vote.ticket_id seen ≡ false)
                × (is_live t.status ≡ true)
                × (height < (t.height + ticket_expiration_blocks) % u64_mod)
                × (vote.vote ≤ 2)
                × (check_pos_votes tickets height (vote.ticket_id ∷ seen) (suc valid) votes
                    ≡ ok n) =
              ground (arith, e) in
            (s, (t, e, (is_live_iff t.status).0 l, x, v), k),
        λ h.
            let (s, (t', e', l, x, v), k) = h in
            ground (arith, e', s, (is_live_iff t'.status).1 l, x, v, k),
      )
    ]

times_voted-eq :
    (id : Hash) (vote : TicketVote) (votes : List TicketVote) (seen : List Hash)
    → times_voted id (vote ∷ votes) + times_seen id seen
      ≡ times_voted id votes + times_seen id (vote.ticket_id ∷ seen)
unfolding times_voted times_seen
times_voted-eq id vote votes seen = elim (Hash-discrete vote.ticket_id id) [
  | yes p ↦ ground (arith, p)
  | no p ↦ ground (arith, p)
]

times_voted_self :
    (vote : TicketVote) (votes : List TicketVote) → 1 ≤ times_voted vote.ticket_id (vote ∷ votes)
unfolding times_voted
times_voted_self vote votes = elim (Hash-discrete vote.ticket_id vote.ticket_id) [
  | yes p ↦ ground (arith, p)
  | no p ↦ ground (arith, p)
]

-- No ticket stands twice among those seen and the votes.
abbrev AreOnce : List Hash → List TicketVote → Type 0
AreOnce seen votes = (id : Hash) → times_voted id votes + times_seen id seen ≤ 1

AreOnce-seen_hash :
    (vote : TicketVote) (seen : List Hash)
    → seen_hash vote.ticket_id seen ≡ false
    → AreOnce seen []
    → AreOnce (vote.ticket_id ∷ seen) []
unfolding times_seen times_voted
AreOnce-seen_hash vote seen s u id = elim (Hash-discrete vote.ticket_id id) [
  | yes p ↦
      let z : times_seen vote.ticket_id seen ≡ 0 = (seen_hash_iff vote.ticket_id seen).0 s in
      let z' : times_seen id seen ≡ 0 = sym (ap (λ h. times_seen h seen) p) ∙ z in
      ground (arith, p, z')
  | no p ↦ ground (arith, p, u id)
]

check_pos_votes_sound :
    (tickets : LiveTicketsPool) (height : ℕ) (seen : List Hash) (valid : ℕ)
    (votes : List TicketVote) (n : ℕ)
    → AreOnce seen []
    → check_pos_votes tickets height seen valid votes ≡ ok n
    → (n ≡ valid + length votes) × AreOnce seen votes × All (CanVote tickets height) votes
unfolding check_pos_votes
check_pos_votes_sound tickets height seen valid [] n u h = (ground arith, u, tt)
check_pos_votes_sound tickets height seen valid (vote ∷ votes) n u h =
    let (s, v, k) = (check_pos_votes_iff tickets height seen valid vote votes n).0 h in
    let (m, u', a) =
      check_pos_votes_sound tickets height (vote.ticket_id ∷ seen) (suc valid) votes n
        (AreOnce-seen_hash vote seen s u) k in
    (omega arith, λ id. omega (arith, u' id, times_voted-eq id vote votes seen), (v, a))

check_pos_votes_complete :
    (tickets : LiveTicketsPool) (height : ℕ) (seen : List Hash) (valid : ℕ)
    (votes : List TicketVote)
    → AreOnce seen votes
    → All (CanVote tickets height) votes
    → check_pos_votes tickets height seen valid votes ≡ ok (valid + length votes)
unfolding check_pos_votes
check_pos_votes_complete tickets height seen valid [] u a = ap ok (omega arith)
check_pos_votes_complete tickets height seen valid (vote ∷ votes) u a =
    (check_pos_votes_iff tickets height seen valid vote votes (valid + suc (length votes))).1 (
      (seen_hash_iff vote.ticket_id seen).1
          (omega (arith, u vote.ticket_id, times_voted_self vote votes)),
      a.0,
      check_pos_votes_complete tickets height (vote.ticket_id ∷ seen) (suc valid) votes
            (λ id. omega (arith, u id, times_voted-eq id vote votes seen)) a.1
          ∙ ap ok (omega arith),
    )

none_seen : AreOnce [] []
unfolding times_voted times_seen
none_seen id = omega arith

times_seen-nil : (id : Hash) → times_seen id [] ≡ 0
unfolding times_seen
times_seen-nil id = refl

is_empty_iff : (votes : List TicketVote) → (is_empty votes ≡ true) ↔ (length votes ≡ 0)
is_empty_iff [] = ground arith
is_empty_iff (vote ∷ votes) = ground arith

-- The code accepts the votes of a block exactly when there are three votes at least, no two by the
-- same ticket, each of one of the three kinds and by a live ticket in the pool that has not expired.
-- Neither a signature nor the selection of the tickets has a part in it.
pub validate_pos_votes_iff :
    (tickets : LiveTicketsPool) (height : ℕ) (votes : List TicketVote)
    → (validate_pos_votes tickets height votes ≡ ok tt) ↔ IsQuorum tickets height votes
unfolding validate_pos_votes
validate_pos_votes_iff tickets height votes = (
  λ h.
      let (_, h1) = require->>= (not (is_empty votes)) no_ticket_votes _ h in
      let (n, e, h2) = >>=-eq-ok (check_pos_votes tickets height [] 0 votes) _ h1 in
      let (m, u, a) = check_pos_votes_sound tickets height [] 0 votes n (λ id. none_seen id) e in
      record { enough = ground (arith, m, h2); once = λ id. omega (arith, u id); can_vote = a },
  λ q. ground (
    arith,
    q.enough,
    is_empty_iff votes,
    check_pos_votes_complete tickets height [] 0 votes
        (λ id. omega (arith, q.once id, times_seen-nil id)) q.can_vote,
  ),
)
