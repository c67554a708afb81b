-- ===== src/Tickets/Selection.antt =====
-- `select_voters`, and the price of a ticket.
use rusty_coin.Common.{
  ℕ, ◌%◌, Bool, true, false, not, ◌&&◌, ◌||◌, List, [], ◌∷◌, ◌++◌, map, take, ltb, ◌==◌,
  if◌then◌else◌,
}
use rusty_coin.Common.Sorting.{sort_by, bytes_le}
use rusty_coin.Common.Words.{Bytes, from_le_bytes}
use rusty_coin.Types.Tx.{Hash}
use mathlib.Core.List.{reverse}
use rusty_coin.Tickets.Pool.{TicketStatus, live, LiveTicketsPool}

abbrev pub voters_per_block : ℕ
voters_per_block = 5

-- The score of a ticket: the first eight bytes of a hash of the last block's hash and the identifier,
-- which `serialize` writes.
unfoldable pub lottery_score : (Bytes → Hash) → (Hash → Bytes) → Hash → Hash → ℕ
lottery_score blake3 serialize prev_block_hash ticket_id =
    from_le_bytes (take 8 (blake3 (prev_block_hash ++ serialize ticket_id)))

-- The order of the sort: by score, then by identifier.
unfoldable pub entry_le : ℕ × Hash → ℕ × Hash → Bool
unfolding bytes_le
entry_le a b = ltb a.0 b.0 || (a.0 == b.0 && bytes_le a.1 b.1)

abbrev pub is_live : TicketStatus → Bool
is_live live = true
is_live _ = false

-- The loop over the pool: the live tickets with their scores.
unfoldable pub scored : (Hash → ℕ) → LiveTicketsPool → List (ℕ × Hash)
scored score [] = []
scored score ((id, ticket) ∷ pool) =
    let rest = scored score pool in if is_live ticket.status then (score id, id) ∷ rest else rest

unfoldable pub select_voters : (Bytes → Hash) → (Hash → Bytes) → Hash → LiveTicketsPool → List Hash
unfolding scored sort_by entry_le lottery_score
select_voters blake3 serialize prev_block_hash pool =
    map (λ entry. entry.1)
      (take voters_per_block
        (reverse (sort_by entry_le (scored (lottery_score blake3 serialize prev_block_hash) pool))))

abbrev pub min_valid_votes_required : ℕ
min_valid_votes_required = 3

-- The count of valid votes is the constant zero.
unfoldable pub validate_pos_block : Bool
validate_pos_block = if ltb 0 min_valid_votes_required then false else true

abbrev pub initial_ticket_price : ℕ
initial_ticket_price = 100000000

abbrev pub max_ticket_price : ℕ
max_ticket_price = 1000000000

abbrev pub min_ticket_price : ℕ
min_ticket_price = 10000000

abbrev pub ticket_price_adjustment_period : ℕ
ticket_price_adjustment_period = 2016

-- `adjusted` is the rounded product of `f64` of the last price and the count.
unfoldable pub calculate_new_ticket_price : (ℕ → ℕ → ℕ) → ℕ → ℕ → ℕ → ℕ
calculate_new_ticket_price adjusted current_block_height last_ticket_price avg_live_tickets_count =
    let p_new = adjusted last_ticket_price avg_live_tickets_count in
    if current_block_height == 0
    then initial_ticket_price
    else if not (current_block_height % ticket_price_adjustment_period == 0)
    then last_ticket_price
    else if ltb max_ticket_price p_new
    then max_ticket_price
    else if ltb p_new min_ticket_price
    then min_ticket_price
    else p_new

unfoldable pub calculate_pos_reward : ℕ → ℕ
calculate_pos_reward block_height = 100000000
