-- ===== src/Script/Proofs/Multisig.antt =====
-- OP_CHECKMULTISIG counts signatures, and not the keys that verify them.
use rusty_coin.Common.{
  ℕ, zero, suc, ◌+◌, ◌<◌, ◌≡◌, refl, arith, All, List, [], ◌∷◌, ◌++◌, length, replicate, true, some,
  length-append, length-replicate,
}
use rusty_coin.Common.Words.{Bytes}
use rusty_coin.Types.Tx.{Hash}
use rusty_coin.Types.Transaction.{get_inputs}
use rusty_coin.Script.Context.{Context}
use rusty_coin.Script.Ops.Signature.{
  pop_values, some_key_verifies, count_verified, op_checkmultisig, calculate_sighash, sighash_tx,
  sighash_inputs, sighash_type,
}
use rusty_coin.Script.Engine.{Engine, ok, pop_data}

module _ (c : Context) where
  pop_values-append :
      (vs rest : List Bytes) (e : Engine)
      → e.stack ≡ vs ++ rest
      → pop_values c (length vs) e ≡ ok vs (record e { stack = rest })
  unfolding pop_values pop_data
  pop_values-append [] rest e h = ground arith
  pop_values-append (v ∷ vs) rest e h =
      ground (arith, pop_values-append vs rest (record e { stack = vs ++ rest }))

  some_key_verifies_lem :
      (message : Hash) (signature : Bytes) (before : List Bytes) (key : Bytes) (after : List Bytes)
      (e : Engine)
      → c.prims.signature_ok signature ≡ true
      → All (λ k. c.prims.public_key_ok k ≡ true) before
      → c.prims.public_key_ok key ≡ true
      → c.prims.verify key message signature ≡ true
      → some_key_verifies c message signature (before ++ key ∷ after) e ≡ ok true e
  unfolding some_key_verifies
  some_key_verifies_lem message signature [] key after e s b k v = ground arith
  some_key_verifies_lem message signature (x ∷ before) key after e s b k v =
      ground (arith, b.0, some_key_verifies_lem message signature before key after e s b.1 k v)

  count_verified-replicate :
      (message : Hash) (signature : Bytes) (keys : List Bytes) (m : ℕ) (e : Engine)
      → some_key_verifies c message signature keys e ≡ ok true e
      → count_verified c message keys (replicate m signature) e ≡ ok m e
  unfolding count_verified
  count_verified-replicate message signature keys zero e h = refl
  count_verified-replicate message signature keys (suc m) e h =
      ground (arith, count_verified-replicate message signature keys m e h)

  calculate_sighash_lem :
      (serialized : Bytes) (e : Engine)
      → c.input_index < length (get_inputs c.tx)
      → c.prims.serialize
          (sighash_tx c.tx (sighash_inputs c.input_index c.script_pubkey 0 (get_inputs c.tx)))
        ≡ some serialized
      → calculate_sighash c e ≡ ok (c.prims.blake3 (serialized ++ sighash_type)) e
  unfolding calculate_sighash
  calculate_sighash_lem serialized e i s = ground arith

  module _ (serialized signature key dummy : Bytes) (before after rest : List Bytes) (m : ℕ) where
    -- M copies of one signature that one of the N keys verifies satisfy M-of-N, for every M: the
    -- stack of M, the M copies and the N keys under the two counts is replaced by TRUE.
    pub op_checkmultisig-replicate :
        (e : Engine)
        → e.stack
          ≡ (length (before ++ key ∷ after) ∷ [])
            ∷ ((before ++ key ∷ after) ++ (m ∷ []) ∷ (replicate m signature ++ dummy ∷ rest))
        → c.input_index < length (get_inputs c.tx)
        → c.prims.serialize
            (sighash_tx c.tx (sighash_inputs c.input_index c.script_pubkey 0 (get_inputs c.tx)))
          ≡ some serialized
        → c.prims.signature_ok signature ≡ true
        → All (λ k. c.prims.public_key_ok k ≡ true) before
        → c.prims.public_key_ok key ≡ true
        → c.prims.verify key (c.prims.blake3 (serialized ++ sighash_type)) signature ≡ true
        → op_checkmultisig c e
          ≡ ok tt (record e { stack = (1 ∷ []) ∷ rest; sig_op_count = e.sig_op_count + 1 })
    unfolding op_checkmultisig
    op_checkmultisig-replicate e h i s so b k v =
        let keys = before ++ key ∷ after in
        let message = c.prims.blake3 (serialized ++ sighash_type) in
        let signatures = replicate m signature in
        let counted = record e { sig_op_count = e.sig_op_count + 1 } in
        let below_keys = (m ∷ []) ∷ (signatures ++ dummy ∷ rest) in
        let below = record counted { stack = dummy ∷ rest } in
        ground (
          arith,
          length-append keys below_keys,
          length-append signatures (dummy ∷ rest),
          length-replicate m signature,
          pop_values-append keys below_keys (record counted { stack = keys ++ below_keys }),
          pop_values-append signatures (dummy ∷ rest)
              (record counted { stack = signatures ++ dummy ∷ rest }),
          count_verified-replicate message signature keys m (record below { stack = rest })
              (some_key_verifies_lem message signature before key after
                (record below { stack = rest }) so b k v),
        )
