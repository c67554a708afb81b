-- ===== src/Script/Proofs/Templates.antt =====
-- The templates P2PKH and P2SH, against their tests and against the engine.
use rusty_coin.Common.{
  ℕ, zero, suc, ◌+◌, ◌≡◌, ◌≢◌, refl, arith, [], ◌∷◌, ◌++◌, length, take, get_elem?, Bool, true,
  some, ap, sym, ◌∙◌, length-append, ◌&&◌, ==_iff,
}
use rusty_coin.Common.Words.{Bytes}
use rusty_coin.Types.Tx.{TxOutput}
use rusty_coin.Script.Context.{Context}
use rusty_coin.Script.Opcode.{from_byte}
use rusty_coin.Script.Execute.{operate, dispatch, instruction, round, run, execute}
use rusty_coin.Script.Standard.{
  is_p2pkh, create_p2pkh, create_p2sh, extract_public_key_hash, range, byte_is,
}
use rusty_coin.Script.Engine.{Engine, ok}

-- Twenty bytes and two more.
split_twenty :
    (n : ℕ) (xs : Bytes) (a b : ℕ)
    → length xs ≡ n + 2
    → get_elem? xs n ≡ some a
    → get_elem? xs (suc n) ≡ some b
    → xs ≡ take n xs ++ a ∷ b ∷ []
split_twenty zero [] a b l p q = cc
split_twenty zero (x ∷ []) a b l p q = cc
split_twenty zero (x ∷ y ∷ []) a b l p q = ground arith
split_twenty zero (x ∷ y ∷ z ∷ xs) a b l p q = absurd (omega arith)
split_twenty (suc n) [] a b l p q = cc
split_twenty (suc n) (x ∷ xs) a b l p q = ap (◌∷◌ x) (split_twenty n xs a b (omega arith) p q)

split_one :
    (n : ℕ) (xs : Bytes) (a : ℕ)
    → length xs ≡ n + 1
    → get_elem? xs n ≡ some a
    → xs ≡ take n xs ++ a ∷ []
split_one zero [] a l p = cc
split_one zero (x ∷ []) a l p = ground arith
split_one zero (x ∷ y ∷ xs) a l p = absurd (omega arith)
split_one (suc n) [] a l p = cc
split_one (suc n) (x ∷ xs) a l p = ap (◌∷◌ x) (split_one n xs a (omega arith) p)

get_elem?-append_self :
    (hash : Bytes) (a : ℕ) (rest : Bytes) → get_elem? (hash ++ a ∷ rest) (length hash) ≡ some a
get_elem?-append_self [] a rest = refl
get_elem?-append_self (x ∷ hash) a rest = get_elem?-append_self hash a rest

get_elem?-append_next :
    (hash : Bytes) (a b : ℕ) → get_elem? (hash ++ a ∷ b ∷ []) (suc (length hash)) ≡ some b
get_elem?-append_next [] a b = refl
get_elem?-append_next (x ∷ hash) a b = get_elem?-append_next hash a b

take-append : (hash rest : Bytes) → take (length hash) (hash ++ rest) ≡ hash
take-append [] [] = refl
take-append [] (x ∷ rest) = refl
take-append (x ∷ hash) rest = ap (◌∷◌ x) (take-append hash rest)

-- A script with the template of a hash of twenty bytes passes the test, and the hash is read back.
pub extract_public_key_hash-create_p2pkh :
    (hash : Bytes) (output : TxOutput)
    → length hash ≡ 20
    → output.script_pubkey ≡ create_p2pkh hash
    → (is_p2pkh output.script_pubkey ≡ true) × (extract_public_key_hash output ≡ some hash)
unfolding extract_public_key_hash is_p2pkh create_p2pkh
extract_public_key_hash-create_p2pkh hash output l s = rw s (
    ground (
      arith,
      length-append hash (0x88 ∷ 0xac ∷ []),
      sym (ap (get_elem? (hash ++ 0x88 ∷ 0xac ∷ [])) l)
          ∙ get_elem?-append_self hash 0x88 (0xac ∷ []),
      sym (ap (λ (n : ℕ). get_elem? (hash ++ 0x88 ∷ 0xac ∷ []) (suc n)) l)
          ∙ get_elem?-append_next hash 0x88 0xac,
      sym (ap (λ (n : ℕ). take n (hash ++ 0x88 ∷ 0xac ∷ [])) l)
          ∙ take-append hash (0x88 ∷ 0xac ∷ []),
    ))

get_elem?_of_byte_is :
    (bytes : Bytes) (i value : ℕ) → byte_is bytes i value ≡ true → get_elem? bytes i ≡ some value
get_elem?_of_byte_is bytes i value h = ground arith

six_true :
    (a b c d e f : Bool)
    → (a && b && c && d && e && f) ≡ true
    → (a ≡ true) × (b ≡ true) × (c ≡ true) × (d ≡ true) × (e ≡ true) × (f ≡ true)
six_true a b c d e f h = ground arith

-- Five bytes at their places, in a script that has three bytes before twenty-two others.
template_of_bytes :
    (bytes : Bytes)
    → length bytes ≡ 25
    → get_elem? bytes 0 ≡ some 0x76
    → get_elem? bytes 1 ≡ some 0xa9
    → get_elem? bytes 2 ≡ some 0x14
    → get_elem? bytes 23 ≡ some 0x88
    → get_elem? bytes 24 ≡ some 0xac
    → bytes ≡ create_p2pkh (range bytes 3 23)
unfolding create_p2pkh
template_of_bytes [] l p q r s t = cc
template_of_bytes (a ∷ []) l p q r s t = cc
template_of_bytes (a ∷ b ∷ []) l p q r s t = cc
template_of_bytes (a ∷ b ∷ d ∷ rest) l p q r s t =
    cc (p, q, r, split_twenty 20 rest 0x88 0xac (omega arith) s t)

-- The test passes on no other script: what passes it is the template of its bytes 3 to 22.
pub create_p2pkh-is_p2pkh :
    (bytes : Bytes) → is_p2pkh bytes ≡ true → bytes ≡ create_p2pkh (range bytes 3 23)
unfolding is_p2pkh
create_p2pkh-is_p2pkh bytes h =
    let t = six_true _ _ _ _ _ _ h in
    template_of_bytes bytes ((==_iff (length bytes) 25).0 t.0)
      (get_elem?_of_byte_is bytes 0 0x76 t.1) (get_elem?_of_byte_is bytes 1 0xa9 t.2)
      (get_elem?_of_byte_is bytes 2 0x14 t.3) (get_elem?_of_byte_is bytes 23 0x88 t.4)
      (get_elem?_of_byte_is bytes 24 0xac t.5)

module _ (c : Context) where
  -- Executed from an engine that skips nothing, a P2PKH template never succeeds, whatever the hash
  -- and the stack: the engine has no opcode for its push of twenty bytes.
  pub create_p2pkh-fails :
      (hash : Bytes) (e e' : Engine) → e.skip_depth ≡ 0 → execute c (create_p2pkh hash) e ≢ ok tt e'
  unfolding execute run round instruction dispatch operate from_byte create_p2pkh
  create_p2pkh-fails hash e e' s h = ground arith

  -- Executed from an engine that skips nothing, a P2SH template never succeeds, for the same reason.
  pub create_p2sh-fails :
      (hash : Bytes) (e e' : Engine) → e.skip_depth ≡ 0 → execute c (create_p2sh hash) e ≢ ok tt e'
  unfolding execute run round instruction dispatch operate from_byte create_p2sh
  create_p2sh-fails hash e e' s h = ground arith
