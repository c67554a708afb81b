-- ===== src/Script/Proofs/Oblivious.antt =====
-- The count of signature operations does not influence a run.
pub mod Runs
use rusty_coin.Common.{ℕ, zero, suc, ◌+◌, ◌≡◌, refl, arith, leb, List, [], ◌∷◌, Bool, true, false}
use rusty_coin.Common.Words.{Bytes}
use rusty_coin.Types.Tx.{Hash}
use rusty_coin.Script.Opcode.{Opcode, from_byte}
use rusty_coin.Script.Context.{Context}
use rusty_coin.Script.Ops.Signature.{
  pop_values, some_key_verifies, count_verified, op_checkmultisig, op_checkmultisigverify,
  calculate_sighash, count_sig_op, first_byte, stack_holds,
}
use rusty_coin.Script.Ops.Splice.{op_verify, from_bool}
use rusty_coin.Script.Ops.Flow.{skip_opcode}
use rusty_coin.Script.Execute.{operate, dispatch, check_depth, instruction, round, run, execute}
use rusty_coin.Script.Engine.{
  Engine, Outcome, Exec, ok, err, panic, pure, ◌>>=◌, ◌>>◌, push_data, pop_data, push_data_n,
  should_skip,
}

-- An engine or an outcome with the count forgotten.
abbrev pub uncounted : Engine → Engine
uncounted e = record e { sig_op_count = 0 }

abbrev pub strip {ℓ} : {A : Type ℓ} → Outcome A → Outcome A
strip (ok a e) = ok a (uncounted e)
strip (err x e) = err x (uncounted e)
strip panic = panic

-- Engines that differ in the count alone have outcomes that differ in the count alone.
pub record IsOblivious {ℓ} {A : Type ℓ} (m : Exec A) : Type ℓ where
  pub at : (e e' : Engine) → uncounted e ≡ uncounted e' → strip (m e) ≡ strip (m e')

ok-injective {ℓ} :
    {A : Type ℓ} (a b : A) (x y : Engine)
    → strip (ok a x) ≡ strip (ok b y)
    → (a ≡ b) × (uncounted x ≡ uncounted y)
ok-injective a b x y h = ground arith

module _ {ℓ κ} {A : Type ℓ} {B : Type κ} (f : A → Exec B) (kf : (a : A) → IsOblivious (f a)) where
  abbrev continue : Outcome A → Outcome B
  continue o = elim o [ ok a e ↦ f a e | err x e ↦ err x e | panic ↦ panic ]

  strip-continue :
      (o o' : Outcome A) → strip o ≡ strip o' → strip (continue o) ≡ strip (continue o')
  strip-continue (ok a x) (ok b y) h =
      let (p, q) = ok-injective a b x y h in rw (← p) ((kf a).at x y q)
  strip-continue (ok a x) (err z y) h = cc
  strip-continue (ok a x) panic h = cc
  strip-continue (err z x) (ok b y) h = cc
  strip-continue (err z x) (err w y) h = ground arith
  strip-continue (err z x) panic h = cc
  strip-continue panic (ok b y) h = cc
  strip-continue panic (err z y) h = cc
  strip-continue panic panic h = refl

module _ {ℓ κ} {A : Type ℓ} {B : Type κ} where
  pub bind-IsOblivious :
      (m : Exec A) {f : A → Exec B}
      → IsOblivious m
      → ((a : A) → IsOblivious (f a))
      → IsOblivious (m >>= f)
  bind-IsOblivious m {f} km kf = record {
    at = λ e e' h. strip-continue f kf (m e) (m e') (km.at e e' h);
  }

pop_data-IsOblivious : IsOblivious pop_data
unfolding pop_data
pop_data-IsOblivious = record { at = λ e e' h. ground arith }

push_data-IsOblivious : (v : Bytes) → IsOblivious (push_data v)
unfolding push_data
push_data-IsOblivious v = record { at = λ e e' h. ground arith }

pure-IsOblivious {ℓ} : {A : Type ℓ} (a : A) → IsOblivious (pure a)
pure-IsOblivious a = record { at = λ e e' h. ground arith }

op_verify-IsOblivious : IsOblivious op_verify
unfolding op_verify
op_verify-IsOblivious = record { at = λ e e' h. ground arith }
