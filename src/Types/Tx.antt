-- ===== src/Types/Tx.antt =====
-- Outpoints, inputs and outputs (rusty-shared-types/src/lib.rs), and the UTXO entry.
use rusty_coin.Common.{ℕ, Bool, Option, List, ℕ_discrete}
use rusty_coin.Common.HashMap.{Key}
use rusty_coin.Common.Words.{Bytes}

-- `type Hash = [u8; 32]`, as its bytes.
abbrev pub Hash : Type 0
Hash = Bytes

pub record OutPoint : Type 0 where
  pub txid : Hash
  pub vout : ℕ

pub record TxInput : Type 0 where
  pub prev_out_hash : Hash
  pub prev_out_index : ℕ
  pub previous_output : OutPoint
  pub script_sig : Bytes
  pub sequence : ℕ
  pub witness : List Bytes

pub record TxOutput : Type 0 where
  pub value : ℕ
  pub script_pubkey : Bytes
  pub memo : Option Bytes

pub record Utxo : Type 0 where
  pub output : TxOutput
  pub is_coinbase : Bool
  pub creation_height : ℕ

unfoldable pub Hash-discrete : Discrete Hash
Hash-discrete = hlevel ℕ_discrete

unfoldable pub OutPoint-discrete : Discrete OutPoint
OutPoint-discrete = hlevel ℕ_discrete

instance unfoldable pub hash_key : Key Hash
unfolding Hash-discrete
hash_key = record { eq = Hash-discrete }

instance unfoldable pub outpoint_key : Key OutPoint
unfolding OutPoint-discrete
outpoint_key = record { eq = OutPoint-discrete }

-- `TxInput::new`
unfoldable pub new_input : Hash → ℕ → Bytes → ℕ → List Bytes → TxInput
new_input prev_out_hash prev_out_index script_sig sequence witness = record {
  prev_out_hash = prev_out_hash;
  prev_out_index = prev_out_index;
  previous_output = record { txid = prev_out_hash; vout = prev_out_index };
  script_sig = script_sig;
  sequence = sequence;
  witness = witness;
}

-- `TxInput::from_outpoint`
unfoldable pub from_outpoint : OutPoint → Bytes → ℕ → List Bytes → TxInput
unfolding new_input
from_outpoint outpoint script_sig sequence witness =
    new_input outpoint.txid outpoint.vout script_sig sequence witness
