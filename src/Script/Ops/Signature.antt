-- ===== src/Script/Ops/Signature.antt =====
-- Signature words: the sighash, OP_CHECKSIG and OP_CHECKMULTISIG.
use rusty_coin.Common.{
  ℕ, zero, suc, ◌+◌, ◌==◌, leb, ltb, if◌then◌else◌, Bool, true, false, Option, none, some, List, [],
  ◌∷◌, ◌++◌, length,
}
use rusty_coin.Common.Words.{Bytes}
use rusty_coin.Types.Tx.{Hash, TxInput, from_outpoint}
use rusty_coin.Types.Transaction.{Transaction, standard, coinbase, get_inputs, get_outputs}
use rusty_coin.Script.Context.{Context}
use rusty_coin.Script.Ops.Splice.{from_bool, op_verify}
use rusty_coin.Script.Engine.{
  Exec, ok, err, verification_failed, stack_underflow, pure, guard, abort, ◌>>=◌, ◌>>◌, push_data,
  pop_data,
}

-- The inputs as they are signed: the locking script stands in the signed input, and no script in
-- the others. `i` counts the inputs.
unfoldable pub sighash_inputs : ℕ → Bytes → ℕ → List TxInput → List TxInput
unfolding from_outpoint
sighash_inputs input_index script_pubkey i [] = []
sighash_inputs input_index script_pubkey i (input ∷ inputs) =
    from_outpoint input.previous_output (if i == input_index then script_pubkey else [])
      input.sequence input.witness
    ∷ sighash_inputs input_index script_pubkey (i + 1) inputs

unfoldable pub sighash_tx : Transaction → List TxInput → Transaction
unfolding get_outputs
sighash_tx (standard version _ outputs lock_time _ _) inputs =
    standard version inputs outputs lock_time 0 []
sighash_tx (coinbase version _ outputs lock_time _) inputs =
    coinbase version inputs outputs lock_time []
sighash_tx tx inputs = standard 1 inputs (get_outputs tx) 0 0 []

-- `0x01u32.to_le_bytes()`
abbrev pub sighash_type : Bytes
sighash_type = 1 ∷ 0 ∷ 0 ∷ 0 ∷ []

module _ (c : Context) where
  hash_serialized : Option Bytes → Exec Hash
  hash_serialized none e = err verification_failed e
  hash_serialized (some bytes) e = ok (c.prims.blake3 (bytes ++ sighash_type)) e

  unfoldable pub calculate_sighash : Exec Hash
  unfolding get_inputs sighash_inputs sighash_tx hash_serialized
  calculate_sighash = do
    guard (ltb c.input_index (length (get_inputs c.tx))) verification_failed
    hash_serialized (
        c.prims.serialize
          (sighash_tx c.tx (sighash_inputs c.input_index c.script_pubkey 0 (get_inputs c.tx))))

  unfoldable pub count_sig_op : Exec (Unit {0})
  count_sig_op e = ok tt (record e { sig_op_count = e.sig_op_count + 1 })

  unfoldable pub op_checksig : Exec (Unit {0})
  unfolding push_data pop_data calculate_sighash count_sig_op
  op_checksig = do
    count_sig_op
    public_key_bytes ← pop_data
    signature_bytes ← pop_data
    guard (c.prims.public_key_ok public_key_bytes) verification_failed
    guard (c.prims.signature_ok signature_bytes) verification_failed
    sighash ← calculate_sighash
    push_data (from_bool (c.prims.verify public_key_bytes sighash signature_bytes))

  unfoldable pub op_checksigverify : Exec (Unit {0})
  unfolding op_checksig op_verify
  op_checksigverify = do op_checksig; op_verify

  -- `self.pop_data()?[0] as usize`, which panics on an empty value.
  unfoldable pub first_byte : Bytes → Exec ℕ
  first_byte [] = abort
  first_byte (b ∷ bs) = pure b

  unfoldable pub stack_holds : ℕ → Exec (Unit {0})
  stack_holds n e = guard (leb n (length e.stack)) stack_underflow e

  -- `for _ in 0..n { values.push(self.pop_data()?); }`
  unfoldable pub pop_values : ℕ → Exec (List Bytes)
  unfolding pop_data
  pop_values zero = pure []
  pop_values (suc n) = do value ← pop_data; rest ← pop_values n; pure (value ∷ rest)

  -- The inner loop: whether a key verifies the signature, parsing both anew for each key.
  unfoldable pub some_key_verifies : Hash → Bytes → List Bytes → Exec Bool
  some_key_verifies message signature_bytes [] e = ok false e
  some_key_verifies message signature_bytes (public_key_bytes ∷ public_keys) e =
      let rest = some_key_verifies message signature_bytes public_keys e in
      if c.prims.signature_ok signature_bytes
      then (if c.prims.public_key_ok public_key_bytes
          then (if c.prims.verify public_key_bytes message signature_bytes then ok true e else rest)
          else err verification_failed e)
      else err verification_failed e

  -- The outer loop: how many of the signatures some key verifies.
  unfoldable pub count_verified : Hash → List Bytes → List Bytes → Exec ℕ
  count_verified message public_keys [] = pure 0
  count_verified message public_keys (signature_bytes ∷ signatures) = do
    verified ← some_key_verifies message signature_bytes public_keys
    count ← count_verified message public_keys signatures
    pure (if verified then count + 1 else count)

  unfoldable pub op_checkmultisig : Exec (Unit {0})
  unfolding push_data pop_data calculate_sighash count_sig_op first_byte stack_holds
  op_checkmultisig = do
    count_sig_op
    key_count ← pop_data
    num_public_keys ← first_byte key_count
    stack_holds num_public_keys
    public_keys ← pop_values num_public_keys
    signature_count ← pop_data
    num_signatures ← first_byte signature_count
    stack_holds num_signatures
    signatures ← pop_values num_signatures
    dummy ← pop_data
    message ← calculate_sighash
    verified_signatures ← count_verified message public_keys signatures
    push_data (from_bool (leb num_signatures verified_signatures))

  unfoldable pub op_checkmultisigverify : Exec (Unit {0})
  unfolding op_checkmultisig op_verify
  op_checkmultisigverify = do op_checkmultisig; op_verify
