-- ===== src/Sidechain/Proofs/Signers.antt =====
-- Whose keys a federation's signature is verified with.
use rusty_coin.Common.{
  ℕ, suc, ◌≡◌, refl, true, List, [], ◌∷◌, arith, Bool-cases, length, All, inl, inr,
}
use rusty_coin.Common.Result.{ok}
use rusty_coin.Common.Words.{Bytes}
use rusty_coin.Sidechain.Signature.{
  FederationSignature, ThresholdCrypto, is_signer_selected, ensure_no_unknown_signers,
  parse_public_key, public_key_shares, aggregate_signer_public_keys,
  verify_federation_signature_with_public_keys,
}

module _ (bls : ThresholdCrypto) where
  -- The bytes are a public key.
  abbrev pub Parses : Bytes → Type 0
  Parses bytes = (k : bls.PublicKey) × (parse_public_key bls bytes ≡ ok k)

  -- As many keys are selected from two lists of the same length.
  public_key_shares-length :
      (bitmap : Bytes) (idx : ℕ) (keys keys' : List Bytes)
      → length keys ≡ length keys'
      → All Parses keys
      → All Parses keys'
      → (l : List bls.PublicKey) × (l' : List bls.PublicKey) × (public_key_shares bls bitmap idx
            keys
          ≡ ok l)
        × (public_key_shares bls bitmap idx keys' ≡ ok l')
        × (length l ≡ length l')
  unfolding public_key_shares
  public_key_shares-length bitmap idx [] [] n h h' = ([], [], refl, refl, refl)
  public_key_shares-length bitmap idx [] (key ∷ keys') n h h' = absurd (omega arith)
  public_key_shares-length bitmap idx (key ∷ keys) [] n h h' = absurd (omega arith)
  public_key_shares-length bitmap idx (key ∷ keys) (key' ∷ keys') n ((k, e), h) ((k', e'), h') =
      let (l, l', p, p', same) =
        public_key_shares-length bitmap (suc idx) keys keys' (omega arith) h h' in
      elim (Bool-cases (is_signer_selected bitmap idx)) [
        | inl selected ↦ (
          k ∷ l,
          k' ∷ l',
          ground (arith, e, p, selected),
          ground (arith, e', p', selected),
          omega (arith, same),
        )
        | inr skipped ↦ (l, l', ground (arith, p, skipped), ground (arith, p', skipped), same)
      ]

  aggregate-first :
      (bitmap : Bytes) (key : Bytes) (keys keys' : List Bytes)
      → is_signer_selected bitmap 0 ≡ true
      → length keys ≡ length keys'
      → All Parses keys
      → All Parses keys'
      → aggregate_signer_public_keys bls (key ∷ keys) bitmap
        ≡ aggregate_signer_public_keys bls (key ∷ keys') bitmap
  unfolding aggregate_signer_public_keys public_key_shares ensure_no_unknown_signers
  aggregate-first [] key keys keys' first n h h' = refl
  aggregate-first (byte ∷ bitmap) key keys keys' first n h h' =
      let (l, l', p, p', same) = public_key_shares-length (byte ∷ bitmap) 1 keys keys' n h h' in
      ground (arith, p, p', same, n)

  -- Where the first member is among the signers, the other members' keys do not matter: with any
  -- other keys in their places, as many, that parse, the verification ends in the same way.
  pub verify_federation_signature-first :
      (signature : FederationSignature) (message key : Bytes) (keys keys' : List Bytes)
      (threshold : ℕ)
      → is_signer_selected signature.signer_bitmap 0 ≡ true
      → length keys ≡ length keys'
      → All Parses keys
      → All Parses keys'
      → verify_federation_signature_with_public_keys bls (key ∷ keys) signature message threshold
        ≡ verify_federation_signature_with_public_keys bls (key ∷ keys') signature message threshold
  unfolding verify_federation_signature_with_public_keys
  verify_federation_signature-first signature message key keys keys' threshold first n h h' =
      ground (arith, aggregate-first signature.signer_bitmap key keys keys' first n h h')
