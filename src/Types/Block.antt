-- ===== src/Types/Block.antt =====
-- Blocks and their headers, ticket votes, and the identifier of a transaction
-- (rusty-shared-types/src/lib.rs).
use rusty_coin.Common.{ℕ, List}
use rusty_coin.Common.Words.{Bytes}
use rusty_coin.Types.Tx.{Hash}
use rusty_coin.Types.Transaction.{Transaction}

pub record BlockHeader : Type 0 where
  pub version : ℕ
  pub height : ℕ
  pub previous_block_hash : Hash
  pub merkle_root : Hash
  pub state_root : Hash
  pub timestamp : ℕ
  pub difficulty_target : ℕ
  pub nonce : ℕ

pub record TicketVote : Type 0 where
  pub ticket_id : Hash
  pub block_hash : Hash
  pub vote : ℕ
  pub signature : Bytes

pub record Block : Type 0 where
  pub header : BlockHeader
  pub ticket_votes : List TicketVote
  pub transactions : List Transaction

-- The crates bincode and blake3. `serialize` is what `bincode::serialize` gives where it succeeds:
-- the program unwraps the result, and the process ends where it does not.
pub record Encoding : Type 0 where
  pub serialize : Transaction → Bytes
  pub blake3 : Bytes → Hash

-- `Transaction::txid`
unfoldable pub txid : Encoding → Transaction → Hash
txid enc tx = enc.blake3 (enc.serialize tx)
