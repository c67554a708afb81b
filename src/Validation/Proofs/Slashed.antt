-- ===== src/Validation/Proofs/Slashed.antt =====
-- A slashing transaction in a block.
use rusty_coin.Common.{ℕ, suc, ◌+◌, ◌≤◌, ◌≡◌, arith, some, ap}
use rusty_coin.Common.Result.{ok}
use rusty_coin.Common.Words.{Bytes}
use rusty_coin.Types.Tx.{Hash, TxInput}
use rusty_coin.Types.Payload.{TicketNonParticipationProof}
use rusty_coin.Types.Transaction.{Transaction, get_inputs}
use rusty_coin.Slashing.Ticket.{create_ticket_non_participation_slashing_transaction}
use rusty_coin.Slashing.Proofs.{create_ticket_non_participation_slashing_transaction-eq-ok}
use rusty_coin.Validation.Context.{ValidationContext}
use rusty_coin.Validation.Structure.{validate_transaction_structure}
use rusty_coin.Validation.Proofs.Sums.{value_at, spent_value}
use rusty_coin.Validation.Proofs.Coinbase.{validate_transaction_structure-eq-ok}

-- The slashing transaction that the program makes for a missed vote, where the slashed part is at most
-- the ticket's value, the spent output has that value, and the transaction has a size of one byte or
-- more, does not pass the check of a transaction's structure: it pays the ticket's value out in full,
-- and the check wants a fee for every byte.
pub validate_transaction_structure-create_slashing :
    (c : ValidationContext) (one_percent : ℕ → ℕ) (ticket_id : Hash)
    (proof : TicketNonParticipationProof) (ticket_input : TxInput) (ticket_value : ℕ)
    (script_pubkey : Bytes) (block_height : ℕ) (tx : Transaction) (n : ℕ)
    → one_percent ticket_value ≤ ticket_value
    → create_ticket_non_participation_slashing_transaction one_percent ticket_id proof ticket_input
        ticket_value script_pubkey block_height
      ≡ ok tx
    → value_at c ticket_input.previous_output ≡ ticket_value
    → c.tx_size tx ≡ some (suc n)
    → ¬ (validate_transaction_structure c tx ≡ ok tt)
unfolding spent_value
validate_transaction_structure-create_slashing c one_percent ticket_id proof ticket_input
      ticket_value script_pubkey block_height tx n b h v s k =
    let (i, o, z) =
      create_ticket_non_participation_slashing_transaction-eq-ok one_percent ticket_id proof
        ticket_input ticket_value script_pubkey block_height tx b h in
    let (size, e, _, q) = validate_transaction_structure-eq-ok c tx k in
    let t : spent_value c (get_inputs tx) ≡ value_at c ticket_input.previous_output + 0 =
      ap (spent_value c) i in
    ground (arith, o, z, e, s, q, t, v)
