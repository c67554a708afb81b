-- ===== src/Sidechain/Signature.antt =====
-- `FederationSignature` (sidechain/types.rs) and its verification against the keys of a federation
-- (sidechain/federation_manager.rs).
use Prim.Native.String.{String}
use rusty_coin.Common.{
  ℕ, zero, suc, ◌+◌, ◌-◌, ◌*◌, ◌/◌, ◌%◌, ◌^◌, max, Bool, true, false, Option, none, some, List, [],
  ◌∷◌, length, get_elem?, ltb, ◌==◌, if◌then◌else◌, ite,
}
use rusty_coin.Common.Result.{Result, ok, err}
use rusty_coin.Common.Words.{Bytes, u32_mod}
use rusty_coin.Types.Tx.{Hash, Hash-discrete}

pub record FederationSignature : Type 0 where
  pub signature : Bytes
  pub signer_bitmap : Bytes
  pub threshold : ℕ
  pub epoch : ℕ
  pub message_hash : Hash

-- `u8::count_ones`: the ones among so many bits.
unfoldable pub count_ones : ℕ → ℕ → ℕ
count_ones zero byte = 0
count_ones (suc bits) byte = byte % 2 + count_ones bits (byte / 2)

-- The loop of `count_signers`, a sum of `u32`.
unfoldable pub count_signers_from : ℕ → Bytes → ℕ
unfolding count_ones
count_signers_from count [] = count
count_signers_from count (byte ∷ bytes) =
    count_signers_from ((count + count_ones 8 byte) % u32_mod) bytes

unfoldable pub count_signers : FederationSignature → ℕ
unfolding count_signers_from
count_signers s = count_signers_from 0 s.signer_bitmap

-- What the code calls of the crate `threshold_crypto`.
pub record ThresholdCrypto : Type 1 where
  pub PublicKey : Type 0
  pub Signature : Type 0
  pub public_key_from_bytes : Bytes → Option PublicKey
  pub signature_from_bytes : Bytes → Option Signature
  pub verify : PublicKey → Signature → Bytes → Bool

abbrev pub bls_public_key_bytes : ℕ
bls_public_key_bytes = 48

abbrev pub bls_signature_bytes : ℕ
bls_signature_bytes = 96

-- Bit 7 of a byte is its first member.
unfoldable pub is_signer_selected : Bytes → ℕ → Bool
is_signer_selected bitmap index = elim (get_elem? bitmap (index / 8)) [
  | none ↦ false
  | some byte ↦ byte / 2 ^ (7 - index % 8) % 2 == 1
]

-- Is one of so many members from an index on selected?
unfoldable pub any_selected : Bytes → ℕ → ℕ → Bool
unfolding is_signer_selected
any_selected bitmap zero index = false
any_selected bitmap (suc count) index =
    let rest = any_selected bitmap count (suc index) in
    if is_signer_selected bitmap index then true else rest

unfoldable pub ensure_no_unknown_signers : Bytes → ℕ → Result String (Unit {0})
unfolding any_selected
ensure_no_unknown_signers bitmap total_members =
    if any_selected bitmap (length bitmap * 8 - total_members) total_members
    then err "Signer bitmap references unknown federation members"
    else ok tt

-- The verification is written once for every implementation of the curve.
module _ (bls : ThresholdCrypto) where
  unfoldable pub parse_public_key : Bytes → Result String bls.PublicKey
  parse_public_key bytes =
      if length bytes == bls_public_key_bytes
      then elim (bls.public_key_from_bytes bytes) [
        | none ↦ err "Invalid BLS public key bytes"
        | some key ↦ ok key
      ]
      else err "BLS public key has the wrong length"

  unfoldable pub parse_signature : Bytes → Result String bls.Signature
  parse_signature bytes =
      if length bytes == bls_signature_bytes
      then elim (bls.signature_from_bytes bytes) [
        | none ↦ err "Invalid BLS signature bytes"
        | some signature ↦ ok signature
      ]
      else err "BLS signature has the wrong length"

  -- The loop over the keys: the parsed keys of the selected members, in order.
  unfoldable pub public_key_shares : Bytes → ℕ → List Bytes → Result String (List bls.PublicKey)
  unfolding parse_public_key
  public_key_shares bitmap idx [] = ok []
  public_key_shares bitmap idx (key_bytes ∷ public_keys) =
      let rest = public_key_shares bitmap (suc idx) public_keys in
      if is_signer_selected bitmap idx
      then elim (parse_public_key key_bytes) [
        | err e ↦ err e
        | ok key ↦ elim rest [ err e ↦ err e | ok keys ↦ ok (key ∷ keys) ]
      ]
      else rest

  -- The first selected key stands for all of them.
  unfoldable pub aggregate_signer_public_keys :
      List Bytes → Bytes → Result String (bls.PublicKey × ℕ)
  unfolding public_key_shares ensure_no_unknown_signers
  aggregate_signer_public_keys public_keys [] = err "Signer bitmap cannot be empty"
  aggregate_signer_public_keys public_keys (byte ∷ bitmap) =
      elim (ensure_no_unknown_signers (byte ∷ bitmap) (length public_keys)) [
        | err e ↦ err e
        | ok _ ↦ elim (public_key_shares (byte ∷ bitmap) 0 public_keys) [
          | err e ↦ err e
          | ok [] ↦ err "Signer bitmap does not reference any known federation members"
          | ok (key ∷ keys) ↦ ok (key, length (key ∷ keys) % u32_mod)
        ]
      ]

  unfoldable pub verify_federation_signature_with_public_keys :
      List Bytes → FederationSignature → Bytes → ℕ → Result String (Unit {0})
  unfolding aggregate_signer_public_keys parse_signature
  verify_federation_signature_with_public_keys public_keys signature message required_threshold =
      if length public_keys == 0
      then err "Federation must provide at least one public key"
      else if signature.threshold == 0
      then err "Signature threshold must be greater than zero"
      else if length signature.signature == 0
      then err "Signature cannot be empty"
      else if length signature.signer_bitmap == 0
      then err "Signer bitmap cannot be empty"
      else ite (Hash-discrete message signature.message_hash)
          (elim (aggregate_signer_public_keys public_keys signature.signer_bitmap) [
            | err e ↦ err e
            | ok (aggregated_pk, signer_count) ↦
                if ltb signer_count (max required_threshold signature.threshold)
                then err "Insufficient signers"
                else elim (parse_signature signature.signature) [
                  | err e ↦ err e
                  | ok parsed_signature ↦
                      if bls.verify aggregated_pk parsed_signature message
                      then ok tt
                      else err "BLS threshold signature verification failed"
                ]
          ])
          (err "Message hash mismatch")
