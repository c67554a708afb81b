-- ===== src/Script/Proofs/SigOps.antt =====
-- The transaction's count of signature operations that `verify_script_with_sig_op_count` keeps.
use rusty_coin.Common.{ℕ, ◌≤◌, ◌≡◌, ◌⊎◌, inl, inr, refl, arith, true}
use rusty_coin.Common.Words.{Bytes}
use rusty_coin.Types.Transaction.{Transaction}
use rusty_coin.Script.Context.{Primitives}
use rusty_coin.Script.Engine.{ScriptError, Engine, Outcome, ok, err, panic}
use rusty_coin.Script.Validate.{
  fits, execute_both, finish_counted, verify_script_with_sig_op_count, reset,
}

Outcome-cases {ℓ} :
    {A : Type ℓ} (o : Outcome A)
    → ((a : A) × (e : Engine) × (o ≡ ok a e))
      ⊎ ((x : ScriptError) × (e : Engine) × (o ≡ err x e))
      ⊎ (o ≡ panic)
Outcome-cases (ok a e) = inl (a, e, refl)
Outcome-cases (err x e) = inr (inl (x, e, refl))
Outcome-cases panic = inr (inr refl)

module _ (prims : Primitives) (tx : Transaction) where
  -- An input that is accepted leaves the transaction's count at most at 20. It was accepted with
  -- scripts of allowed size, and the count that it leaves is the one of the two executions, begun
  -- with the count before.
  pub verify_script_with_sig_op_count-ok :
      (script_sig script_pubkey : Bytes) (input_index count n : ℕ) (e e' : Engine)
      → verify_script_with_sig_op_count prims tx script_sig script_pubkey input_index count e
        ≡ (ok tt e', n)
      → (n ≤ 20)
        × (fits script_sig script_pubkey ≡ true)
        × ((middle : Engine) × (execute_both prims tx input_index script_sig script_pubkey
                (record (reset e) { sig_op_count = count })
              ≡ ok tt middle)
            × (middle.sig_op_count ≡ n))
  unfolding verify_script_with_sig_op_count finish_counted
  verify_script_with_sig_op_count-ok script_sig script_pubkey input_index count n e e' h =
      elim (Outcome-cases (
        execute_both prims tx input_index script_sig script_pubkey
          (record (reset e) { sig_op_count = count }))) [
            | inl (u, middle, p) ↦
                (ground arith, ground arith, (middle, ground arith, ground arith))
            | inr (inl (x, middle, p)) ↦ absurd (ground arith)
            | inr (inr p) ↦ absurd (ground arith)
          ]
