-- ===== src/Script/Context.antt =====
-- What one run of a script is given beside the engine, and the foreign primitives it calls.
use rusty_coin.Common.{ℕ, Bool, Option}
use rusty_coin.Common.Words.{Bytes}
use rusty_coin.Types.Tx.{Hash}
use rusty_coin.Types.Transaction.{Transaction}

-- The crates sha2, sha1, ripemd, blake3, ed25519_dalek and bincode, as functions. A key or a
-- signature is named by the bytes that it is parsed from; `serialize` fails by `none`.
pub record Primitives : Type 0 where
  pub sha256 : Bytes → Bytes
  pub sha1 : Bytes → Bytes
  pub ripemd160 : Bytes → Bytes
  pub blake3 : Bytes → Hash
  pub public_key_ok : Bytes → Bool
  pub signature_ok : Bytes → Bool
  pub verify : Bytes → Bytes → Bytes → Bool
  pub serialize : Transaction → Option Bytes

-- The arguments of `ScriptEngine::execute` other than the script and the message, which is unused.
pub record Context : Type 0 where
  pub prims : Primitives
  pub tx : Transaction
  pub current_block_height : ℕ
  pub input_index : ℕ
  pub script_pubkey : Bytes
