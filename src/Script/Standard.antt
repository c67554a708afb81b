-- ===== src/Script/Standard.antt =====
-- The templates P2PKH and P2SH and their direct verification
-- (rusty-core/src/script/script_engine/standard_scripts.rs), and `execute_standard_script`.
use rusty_coin.Common.{
  ℕ, ◌+◌, ◌-◌, ◌==◌, leb, ltb, if◌then◌else◌, Bool, false, ◌&&◌, Option, none, some, List, [], ◌∷◌,
  ◌++◌, length, take, drop, get_elem?,
}
use rusty_coin.Common.Words.{Bytes, to_le_bytes}
use rusty_coin.Types.Tx.{Hash, TxInput, TxOutput}
use rusty_coin.Types.Transaction.{
  Transaction, standard, coinbase, masternode_register, masternode_collateral, governance_proposal,
  governance_vote, activate_proposal, ticket_purchase, ticket_redemption, masternode_slash_tx,
  ticket_slash_non_participation, ticket_slash_malicious, get_inputs, get_outputs, get_lock_time,
}
use rusty_coin.Script.Context.{Primitives}
use rusty_coin.Script.Ops.Splice.{bytes_eq}
use rusty_coin.Script.Execute.{execute}
use rusty_coin.Script.Validate.{reset, context}
use rusty_coin.Script.Engine.{Exec, ok, err, panic, verification_failed, guard, pure, ◌>>=◌, ◌>>◌}

-- `bytes[i] == value`, where the index is known to be in range.
abbrev pub byte_is : Bytes → ℕ → ℕ → Bool
byte_is bytes i value = elim (get_elem? bytes i) [ some b ↦ b == value | none ↦ false ]

-- `&bytes[from..to]`, where the range is known to be in range.
abbrev pub range : Bytes → ℕ → ℕ → Bytes
range bytes from to = take (to - from) (drop from bytes)

unfoldable pub is_p2pkh : Bytes → Bool
is_p2pkh bytes =
    length bytes == 25
    && byte_is bytes 0 0x76
    && byte_is bytes 1 0xa9
    && byte_is bytes 2 0x14
    && byte_is bytes 23 0x88
    && byte_is bytes 24 0xac

unfoldable pub is_p2sh : Bytes → Bool
is_p2sh bytes =
    length bytes == 23 && byte_is bytes 0 0xa9 && byte_is bytes 1 0x14 && byte_is bytes 22 0x87

unfoldable pub create_p2pkh : Bytes → Bytes
create_p2pkh hash = 0x76 ∷ 0xa9 ∷ 0x14 ∷ (hash ++ 0x88 ∷ 0xac ∷ [])

unfoldable pub create_p2sh : Bytes → Bytes
create_p2sh hash = 0xa9 ∷ 0x14 ∷ (hash ++ 0x87 ∷ [])

-- `TxOutput::extract_public_key_hash` (rusty-shared-types/src/lib.rs)
unfoldable pub extract_public_key_hash : TxOutput → Option Hash
unfolding is_p2pkh
extract_public_key_hash output =
    if is_p2pkh output.script_pubkey then some (range output.script_pubkey 3 23) else none

unfoldable pub encode_varint : ℕ → Bytes
encode_varint value =
    if ltb value 0xfd
    then value ∷ []
    else if leb value 0xffff
    then 0xfd ∷ to_le_bytes 2 value
    else if leb value 0xffffffff
    then 0xfe ∷ to_le_bytes 4 value
    else 0xff ∷ to_le_bytes 8 value

-- The version that is signed, by variant.
unfoldable pub signed_version : Transaction → ℕ
signed_version (standard version _ _ _ _ _) = version
signed_version (coinbase version _ _ _ _) = version
signed_version (masternode_register _ _ _ _ _ _) = 1
signed_version (masternode_collateral version _ _ _ _ _ _) = version
signed_version (activate_proposal version _ _ _ _ _ _ _ _) = version
signed_version (ticket_purchase version _ _ _ _ _ _ _ _) = version
signed_version (ticket_redemption version _ _ _ _ _ _) = version
signed_version (ticket_slash_non_participation version _ _ _ _ _ _ _) = version
signed_version (ticket_slash_malicious version _ _ _ _ _ _ _) = version
signed_version (governance_proposal _) = 1
signed_version (governance_vote _) = 1
signed_version (masternode_slash_tx tx) = tx.version

sighash_input : ℕ → Bytes → ℕ → TxInput → Bytes
unfolding encode_varint
sighash_input input_index script_pubkey i input =
    let script_sig = if i == input_index then script_pubkey else [] in
    input.previous_output.txid
    ++ (to_le_bytes 4 input.previous_output.vout
        ++ (encode_varint (length script_sig) ++ (script_sig ++ to_le_bytes 4 input.sequence)))

sighash_all_inputs : ℕ → Bytes → ℕ → List TxInput → Bytes
sighash_all_inputs input_index script_pubkey i [] = []
sighash_all_inputs input_index script_pubkey i (input ∷ inputs) =
    sighash_input input_index script_pubkey i input
    ++ sighash_all_inputs input_index script_pubkey (i + 1) inputs

sighash_outputs : List TxOutput → Bytes
sighash_outputs [] = []
sighash_outputs (output ∷ outputs) =
    to_le_bytes 8 output.value
    ++ (encode_varint (length output.script_pubkey)
        ++ (output.script_pubkey ++ sighash_outputs outputs))

-- The bytes that the sighash of the templates is taken of.
unfoldable pub sighash_data : Transaction → ℕ → Bytes → Bytes
unfolding encode_varint sighash_input sighash_all_inputs sighash_outputs signed_version get_inputs
    get_outputs get_lock_time
sighash_data tx input_index script_pubkey =
    to_le_bytes 4 (signed_version tx)
    ++ (encode_varint (length (get_inputs tx))
        ++ (sighash_all_inputs input_index script_pubkey 0 (get_inputs tx)
            ++ (encode_varint (length (get_outputs tx))
                ++ (sighash_outputs (get_outputs tx)
                    ++ (to_le_bytes 4 (get_lock_time tx) ++ to_le_bytes 4 1)))))

module _ (prims : Primitives) (tx : Transaction) where
  unfoldable pub template_sighash : ℕ → Bytes → Exec Hash
  unfolding sighash_data
  template_sighash input_index script_pubkey = do
    guard (ltb input_index (length (get_inputs tx))) verification_failed
    pure (prims.blake3 (sighash_data tx input_index script_pubkey))

  unfoldable pub verify_p2pkh_script : Bytes → Bytes → ℕ → Exec (Unit {0})
  unfolding template_sighash
  verify_p2pkh_script script_sig script_pubkey input_index = do
    guard (leb 96 (length script_sig)) verification_failed
    let signature_bytes = range script_sig 0 64
    let pubkey_bytes = drop (length script_sig - 32) script_sig
    guard
        (length script_pubkey == 25 && byte_is script_pubkey 0 0x76 && byte_is script_pubkey 1 0xa9)
        verification_failed
    let expected_hash = range script_pubkey 3 23
    guard (bytes_eq (prims.ripemd160 (prims.sha256 pubkey_bytes)) expected_hash) verification_failed
    guard (prims.public_key_ok pubkey_bytes) verification_failed
    guard (prims.signature_ok signature_bytes) verification_failed
    sighash ← template_sighash input_index script_pubkey
    guard (prims.verify pubkey_bytes sighash signature_bytes) verification_failed

  -- The redeem script is taken to be the last 32 bytes of the unlocking script.
  unfoldable pub redeem_script : Bytes → Bytes
  redeem_script script_sig = drop (length script_sig - 32) script_sig

  -- Every error of the redeem script is reported as a failed verification.
  as_failed_verification : Exec (Unit {0}) → Exec (Unit {0})
  as_failed_verification m e = elim (m e) [
    | ok u e' ↦ ok u e'
    | err x e' ↦ err verification_failed e'
    | panic ↦ panic
  ]

  unfoldable pub verify_p2sh_script : Bytes → Bytes → Exec (Unit {0})
  unfolding redeem_script as_failed_verification
  verify_p2sh_script script_sig script_pubkey = do
    guard
        (length script_pubkey == 23
          && byte_is script_pubkey 0 0xa9
          && byte_is script_pubkey 22 0x87)
        verification_failed
    guard (leb 1 (length script_sig)) verification_failed
    guard
        (bytes_eq (prims.ripemd160 (prims.sha256 (redeem_script script_sig)))
          (range script_pubkey 2 22))
        verification_failed
    as_failed_verification (execute (context prims tx 0 0 script_pubkey) (redeem_script script_sig))

  -- For any other script the unlocking and the locking script run as one, at height 0, and what
  -- they leave on the stack is not looked at.
  unfoldable pub execute_standard_script : Bytes → Bytes → ℕ → Exec (Unit {0})
  unfolding verify_p2pkh_script verify_p2sh_script
  execute_standard_script script_sig script_pubkey input_index e =
      if is_p2pkh script_pubkey
      then verify_p2pkh_script script_sig script_pubkey input_index e
      else if is_p2sh script_pubkey
      then verify_p2sh_script script_sig script_pubkey e
      else execute (context prims tx 0 input_index script_pubkey) (script_sig ++ script_pubkey)
          (reset e)
