-- ===== src/Tickets/Tests.antt =====
-- Two live tickets in the two orders, and one that is pending; the purchase of one and its revert.
use rusty_coin.Common.{
  min, ℕ, ◌+◌, ◌≤◌, ◌≡◌, ◌⊎◌, Bool, true, false, List, [], ◌∷◌, Option, none, some, refl, arith,
  length, All, replicate, take,
}
use rusty_coin.Common.HashMap.{get, insert, remove, AreUnique}
use rusty_coin.Common.Ranked.{In}
use rusty_coin.Common.Words.{Bytes}
use rusty_coin.Types.Tx.{Hash, hash_key}
use rusty_coin.Types.Transaction.{ticket_purchase}
use rusty_coin.Types.Block.{Block}
use rusty_coin.Tickets.Pool.{
  Ticket, TicketStatus, pending, live, LiveTicketsPool, update_for_new_block,
  update_for_revert_block,
}
use rusty_coin.Tickets.Selection.{select_voters, lottery_score, entry_le, validate_pos_block}
use rusty_coin.Tickets.Proofs.Counts.{times_in, live_count}
use rusty_coin.Tickets.Proofs.Voters.{IsLiveIn, select_voters-highest}

abbrev ticket : ℕ → TicketStatus → Ticket
ticket n status = record { id = n ∷ []; pubkey = []; height = 10; value = 1; status = status }

abbrev entry : ℕ → TicketStatus → Hash × Ticket
entry n status = (n ∷ [], ticket n status)

abbrev pool : LiveTicketsPool
pool = entry 1 live ∷ entry 2 live ∷ entry 3 pending ∷ []

abbrev turned_pool : LiveTicketsPool
turned_pool = entry 3 pending ∷ entry 2 live ∷ entry 1 live ∷ []

-- The score of a ticket is its number.
abbrev blake3 : Bytes → Hash
blake3 bytes = bytes

abbrev serialize : Hash → Bytes
serialize id = id

chosen : select_voters blake3 serialize [] pool ≡ (2 ∷ []) ∷ (1 ∷ []) ∷ []
unfolding select_voters rusty_coin.Common.Words.from_le_bytes
chosen = refl

never_valid : validate_pos_block ≡ false
unfolding validate_pos_block
never_valid = refl

same_tickets : (i : Hash) → get i pool ≡ get i turned_pool
unfolding get
same_tickets i = ground arith

pool-AreUnique : AreUnique pool
pool-AreUnique = ((λ e. cc e, (λ e. cc e, tt)), ((λ e. cc e, tt), (tt, tt)))

turned_pool-AreUnique : AreUnique turned_pool
turned_pool-AreUnique = ((λ e. cc e, (λ e. cc e, tt)), ((λ e. cc e, tt), (tt, tt)))

found : get (1 ∷ []) pool ≡ some (ticket 1 live)
unfolding get hash_key rusty_coin.Common.ℕ_discrete
found = refl

select_voters-highest_example :
    let score = lottery_score blake3 serialize [] in
    let voters = select_voters blake3 serialize [] pool in
    (voters ≡ select_voters blake3 serialize [] turned_pool)
    × (length voters ≡ min 5 (live_count pool))
    × ((i : Hash) → times_in i voters ≤ 1)
    × All (IsLiveIn pool) voters
    × (In (1 ∷ []) voters ⊎ All (λ s. entry_le (score (1 ∷ []), 1 ∷ []) (score s, s) ≡ true) voters)
select_voters-highest_example =
    select_voters-highest blake3 serialize [] pool turned_pool (1 ∷ []) (ticket 1 live)
      pool-AreUnique turned_pool-AreUnique same_tickets found refl

-- A block at height 20 with one purchase, which names another identifier than the key's hash.
abbrev purchasing : Block
purchasing = record {
  header = record {
    version = 1;
    height = 20;
    previous_block_hash = [];
    merkle_root = [];
    state_root = [];
    timestamp = 0;
    difficulty_target = 0;
    nonce = 0;
  };
  ticket_votes = [];
  transactions =
      ticket_purchase 1 [] (record { value = 5; script_pubkey = []; memo = none } ∷ []) (9 ∷ []) 5 0
        1 (replicate 32 7) []
      ∷ [];
}

abbrev bought : Ticket
bought = record {
  id = replicate 32 7;
  pubkey = replicate 32 7;
  height = 20;
  value = 5;
  status = pending;
}

bought_pool :
    update_for_new_block blake3 [] purchasing []
    ≡ record { pool = (replicate 32 7, bought) ∷ []; error = none }
unfolding update_for_new_block insert remove
bought_pool = refl

-- The ticket stays in the pool when its block is reverted.
still_there :
    update_for_revert_block ((replicate 32 7, bought) ∷ []) purchasing []
    ≡ (replicate 32 7, bought) ∷ []
unfolding update_for_revert_block remove hash_key rusty_coin.Common.ℕ_discrete
still_there = refl
