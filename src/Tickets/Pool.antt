-- ===== src/Tickets/Pool.antt =====
-- `LiveTicketsPool`: the tickets under their identifiers.
use Prim.Native.String.{String}
use rusty_coin.Common.{
  ℕ, ◌+◌, ◌%◌, Bool, true, false, ◌&&◌, Option, none, some, List, [], ◌∷◌, map, length, leb, ◌==◌,
  if◌then◌else◌,
}
use rusty_coin.Common.HashMap.{HashMap, get, insert, remove}
use rusty_coin.Common.Result.{Result, ok, err}
use rusty_coin.Common.Sorting.{sort_by, bytes_le}
use rusty_coin.Common.Words.{Bytes, u64_mod}
use rusty_coin.Types.Tx.{Hash, TxOutput, hash_key, Hash-discrete}
use rusty_coin.Types.Transaction.{Transaction, ticket_purchase}
use rusty_coin.Types.Block.{Block}

pub data TicketStatus : Type 0 where
  pending live voted expired revoked : TicketStatus

-- A `TicketId` is its 32 bytes.
pub record Ticket : Type 0 where
  pub id : Hash
  pub pubkey : Bytes
  pub height : ℕ
  pub value : ℕ
  pub status : TicketStatus

abbrev pub LiveTicketsPool : Type 0
LiveTicketsPool = HashMap Hash Ticket

-- The ticket can be serialised.
unfoldable pub add_ticket : LiveTicketsPool → Ticket → LiveTicketsPool
add_ticket pool ticket = insert ticket.id ticket pool

-- The pool that is left, and the ticket.
unfoldable pub remove_ticket : LiveTicketsPool → Hash → Result String (LiveTicketsPool × Ticket)
remove_ticket pool ticket_id = elim (get ticket_id pool) [
  | none ↦ err "Ticket not found in live pool."
  | some ticket ↦ ok (remove ticket_id pool, ticket)
]

unfoldable pub get_ticket : LiveTicketsPool → Hash → Option Ticket
get_ticket pool ticket_id = get ticket_id pool

unfoldable pub get_ticket_by_pubkey : LiveTicketsPool → Bytes → Option Ticket
get_ticket_by_pubkey [] pubkey = none
get_ticket_by_pubkey ((id, ticket) ∷ pool) pubkey =
    let rest = get_ticket_by_pubkey pool pubkey in
    elim (Hash-discrete ticket.pubkey pubkey) [ yes p ↦ some ticket | no p ↦ rest ]

unfoldable pub count_live_tickets : LiveTicketsPool → ℕ
count_live_tickets pool = length pool

unfoldable pub get_ticket_ids_sorted : LiveTicketsPool → List Hash
unfolding sort_by bytes_le
get_ticket_ids_sorted pool = sort_by bytes_le (map (λ entry. entry.0) pool)

abbrev pub pos_finality_depth : ℕ
pos_finality_depth = 1

abbrev pub is_pending : TicketStatus → Bool
is_pending pending = true
is_pending live = false
is_pending voted = false
is_pending expired = false
is_pending revoked = false

-- The body of the loop of `process_ticket_finality`.
unfoldable pub finalize : ℕ → Ticket → Ticket
finalize current_height ticket =
    if is_pending ticket.status
      && leb ((ticket.height + pos_finality_depth) % u64_mod) current_height
    then record ticket { status = live }
    else ticket

unfoldable pub process_ticket_finality : ℕ → LiveTicketsPool → LiveTicketsPool
unfolding finalize
process_ticket_finality current_height [] = []
process_ticket_finality current_height ((id, ticket) ∷ pool) =
    (id, finalize current_height ticket) ∷ process_ticket_finality current_height pool

unfoldable pub remove_tickets : List Hash → LiveTicketsPool → LiveTicketsPool
remove_tickets [] pool = pool
remove_tickets (ticket_id ∷ ids) pool = remove_tickets ids (remove ticket_id pool)

-- The ticket of a purchase: its identifier is the hash of the key, not the one that the transaction
-- names.
unfoldable pub purchased_ticket : (Bytes → Hash) → ℕ → TxOutput → Bytes → Ticket
purchased_ticket blake3 height output public_key = record {
  id = blake3 public_key;
  pubkey = public_key;
  height = height;
  value = output.value;
  status = pending;
}

-- A purchase, with the two errors in their order.
unfoldable pub purchase :
    (Bytes → Hash) → ℕ → List TxOutput → Bytes → LiveTicketsPool → Result String LiveTicketsPool
unfolding purchased_ticket add_ticket
purchase blake3 height [] ticket_address pool =
    err "Ticket purchase transaction has no output for ticket."
purchase blake3 height (output ∷ outputs) ticket_address pool =
    if length ticket_address == 32
    then ok (add_ticket pool (purchased_ticket blake3 height output ticket_address))
    else err "Invalid public key length in ticket address."

-- What an update ends with: the pool as it was left, and the error that stopped it.
pub record Updated : Type 0 where
  pub pool : LiveTicketsPool
  pub error : Option String

-- The loop over the transactions; only a purchase changes the pool.
unfoldable pub add_purchases : (Bytes → Hash) → ℕ → List Transaction → LiveTicketsPool → Updated
unfolding purchase
add_purchases blake3 height [] pool = record { pool = pool; error = none }
add_purchases blake3 height (ticket_purchase _ _ outputs _ _ _ _ ticket_address _ ∷ txs) pool =
    elim (purchase blake3 height outputs ticket_address pool) [
      | err e ↦ record { pool = pool; error = some e }
      | ok pool' ↦ add_purchases blake3 height txs pool'
    ]
add_purchases blake3 height (_ ∷ txs) pool = add_purchases blake3 height txs pool

-- Nothing becomes live where an error stopped the loop.
unfoldable pub update_for_new_block : (Bytes → Hash) → LiveTicketsPool → Block → List Hash → Updated
unfolding remove_tickets add_purchases process_ticket_finality
update_for_new_block blake3 pool block used_ticket_ids =
    let added =
      add_purchases blake3 block.header.height block.transactions
        (remove_tickets used_ticket_ids pool) in
    elim added.error [
      | none ↦ record added { pool = process_ticket_finality block.header.height added.pool }
      | some e ↦ added
    ]

-- The loop over the transactions of a block that is reverted.
unfoldable pub remove_purchases : List Transaction → LiveTicketsPool → LiveTicketsPool
remove_purchases [] pool = pool
remove_purchases (ticket_purchase _ _ _ ticket_id _ _ _ _ _ ∷ txs) pool =
    remove_purchases txs (remove ticket_id pool)
remove_purchases (_ ∷ txs) pool = remove_purchases txs pool

-- The used tickets are not put back.
unfoldable pub update_for_revert_block : LiveTicketsPool → Block → List Hash → LiveTicketsPool
unfolding remove_purchases
update_for_revert_block pool block used_ticket_ids = remove_purchases block.transactions pool
