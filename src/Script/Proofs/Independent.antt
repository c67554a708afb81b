-- ===== src/Script/Proofs/Independent.antt =====
-- `validate_transaction` against its inputs one by one.
use rusty_coin.Common.{
  ℕ, ◌+◌, ◌≡◌, refl, arith, List, [], ◌∷◌, ◌++◌, Bool, true, false, ◌&&◌, some, none, Option, ap,
  ◌∙◌,
}
use rusty_coin.Common.HashMap.{HashMap, get}
use rusty_coin.Types.Tx.{OutPoint, TxInput, Utxo, outpoint_key}
use rusty_coin.Types.Transaction.{Transaction, get_inputs, is_coinbase}
use rusty_coin.Script.Context.{Primitives}
use rusty_coin.Script.Proofs.Oblivious.{strip, uncounted}
use rusty_coin.Script.Proofs.Oblivious.Runs.{execute-IsOblivious}
use rusty_coin.Script.Validate.{
  reset, context, leaves_true, validate_input, validate_inputs, validate_transaction,
}
use rusty_coin.Script.Engine.{Engine, Outcome, Exec, ok, err, panic, new_engine}

-- The call returned true.
abbrev pub accepted : Outcome Bool → Bool
accepted (ok b e) = b
accepted (err x e) = false
accepted panic = false

accepted-leaves_true :
    (e e' : Engine)
    → uncounted e ≡ uncounted e'
    → accepted (leaves_true e) ≡ accepted (leaves_true e')
unfolding leaves_true
accepted-leaves_true e e' h = ground arith

-- What `validate_input` makes of the outcome of the script.
abbrev judged : Outcome (Unit {0}) → Bool
judged o = accepted (elim o [ ok _ e ↦ leaves_true e | err x e ↦ ok false e | panic ↦ panic ])

judged-strip : (o o' : Outcome (Unit {0})) → strip o ≡ strip o' → judged o ≡ judged o'
judged-strip (ok u e) (ok u' e') h = accepted-leaves_true e e' (ground arith)
judged-strip (ok u e) (err x e') h = cc
judged-strip (ok u e) panic h = cc
judged-strip (err x e) (ok u' e') h = cc
judged-strip (err x e) (err x' e') h = refl
judged-strip (err x e) panic h = cc
judged-strip panic (ok u' e') h = cc
judged-strip panic (err x e') h = cc
judged-strip panic panic h = refl

-- The loop goes on where an input is valid, and ends where it is not.
abbrev and_then : Exec Bool → Outcome Bool → Outcome Bool
and_then later o = elim o [
  | ok valid e ↦ elim valid [ true ↦ later e | false ↦ ok false e ]
  | err x e ↦ err x e
  | panic ↦ panic
]

accepted-and_then :
    (later : Exec Bool) (rest : Bool)
    → ((e : Engine) → accepted (later e) ≡ rest)
    → (o : Outcome Bool) → accepted (and_then later o) ≡ accepted o && rest
accepted-and_then later rest h (ok true e) = h e
accepted-and_then later rest h (ok false e) = refl
accepted-and_then later rest h (err x e) = refl
accepted-and_then later rest h panic = refl

module _ (prims : Primitives) (tx : Transaction) where
  accepted-validate_input :
      (height i : ℕ) (input : TxInput) (prev : Utxo) (e : Engine)
      → accepted (validate_input prims tx height i input prev e)
        ≡ accepted (validate_input prims tx height i input prev new_engine)
  unfolding validate_input
  accepted-validate_input height i input prev e = judged-strip _ _ (
      (execute-IsOblivious (context prims tx height i prev.output.script_pubkey)
          (input.script_sig ++ prev.output.script_pubkey)).at
        (reset e) (reset new_engine) refl)

  -- One input, run on an engine of its own.
  pub valid_alone : HashMap OutPoint Utxo → ℕ → ℕ → TxInput → Bool
  valid_alone utxo_set height i input = elim (get input.previous_output utxo_set) [
    | none ↦ false
    | some prev ↦ accepted (validate_input prims tx height i input prev new_engine)
  ]

  pub all_valid_alone : HashMap OutPoint Utxo → ℕ → ℕ → List TxInput → Bool
  all_valid_alone utxo_set height i [] = true
  all_valid_alone utxo_set height i (input ∷ inputs) =
      valid_alone utxo_set height i input && all_valid_alone utxo_set height (i + 1) inputs

  accepted-found :
      (height i : ℕ) (input : TxInput) (e : Engine) (later : Exec Bool) (rest : Bool)
      → ((e' : Engine) → accepted (later e') ≡ rest)
      → (found : Option Utxo)
      → accepted (elim found [
        | none ↦ ok false e
        | some prev ↦ and_then later (validate_input prims tx height i input prev e)
      ])
        ≡ (elim found [
          | none ↦ false
          | some prev ↦ accepted (validate_input prims tx height i input prev new_engine)
        ])
          && rest
  accepted-found height i input e later rest h none = refl
  accepted-found height i input e later rest h (some prev) =
      accepted-and_then later rest h (validate_input prims tx height i input prev e)
      ∙ ap (λ b. b && rest) (accepted-validate_input height i input prev e)

  accepted-validate_inputs :
      (utxo_set : HashMap OutPoint Utxo) (height i : ℕ) (inputs : List TxInput) (e : Engine)
      → is_coinbase tx ≡ false
      → accepted (validate_inputs prims tx utxo_set height i inputs e)
        ≡ all_valid_alone utxo_set height i inputs
  unfolding validate_inputs all_valid_alone valid_alone
  accepted-validate_inputs utxo_set height i [] e h = refl
  accepted-validate_inputs utxo_set height i (input ∷ inputs) e h =
      rw (h, validate_inputs, accepted)
        (accepted-found height i input e (validate_inputs prims tx utxo_set height (i + 1) inputs)
          (all_valid_alone utxo_set height (i + 1) inputs)
          (λ e'. accepted-validate_inputs utxo_set height (i + 1) inputs e' h)
          (get input.previous_output utxo_set))

  -- A transaction that is no coinbase is accepted exactly when each of its inputs spends an output
  -- of the set and its script, run on a fresh engine, leaves one value and a true one: what one
  -- input leaves in the engine cannot help or hurt another.
  pub validate_transaction-independent :
      (utxo_set : HashMap OutPoint Utxo) (height : ℕ) (e : Engine)
      → is_coinbase tx ≡ false
      → accepted (validate_transaction prims tx utxo_set height e)
        ≡ all_valid_alone utxo_set height 0 (get_inputs tx)
  unfolding validate_transaction
  validate_transaction-independent utxo_set height e h =
      accepted-validate_inputs utxo_set height 0 (get_inputs tx) (record e { sig_op_count = 0 }) h
