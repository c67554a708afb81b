-- ===== src/Mempool/Proofs/Conflicts.antt =====
-- What the pool admits, and that no two of its transactions spend the same output.
use mathlib.Core.Logic.{if_pos}
use rusty_coin.Common.{
  ◌∙◌, ℕ, ◌+◌, ◌≤◌, Bool, true, false, List, [], ◌∷◌, some, length, ◌≡◌, refl, arith, All,
  Option-cases, inl, inr, ite,
}
use rusty_coin.Common.HashMap.{get, insert, remove, get-insert}
use rusty_coin.Types.Tx.{Hash, TxInput, TxOutput, OutPoint, hash_key}
use rusty_coin.Types.Transaction.{Transaction, get_inputs, get_outputs, is_coinbase}
use rusty_coin.Script.Context.{Primitives}
use rusty_coin.Script.Engine.{new_engine}
use rusty_coin.Script.Validate.{validate_transaction}
use rusty_coin.Script.Proofs.Independent.{accepted}
use rusty_coin.Mempool.Pool.{Mempool, identify, pool_spends, remove_transaction, get_transaction}
use rusty_coin.Mempool.Admission.{
  ChainView, valid, valid_if, admitted, has_dust, has_large_script, input_total, output_total,
  no_input_conflicts, validate_transaction_structure, validate_transaction_fees,
  validate_transaction_scripts, validate_transaction_policy, validate_no_conflicts,
  validate_and_add_transaction,
}

-- No two entries have inputs with the same outpoint.
abbrev pub AreConflictFree : Mempool → Type 0
AreConflictFree [] = Unit {0}
AreConflictFree ((txid, tx) ∷ pool) =
    All (λ input. pool_spends pool input.previous_output ≡ false) (get_inputs tx)
    × AreConflictFree pool

pool_spends-remove :
    (txid : Hash) (pool : Mempool) (p : OutPoint)
    → pool_spends pool p ≡ false
    → pool_spends (remove txid pool) p ≡ false
unfolding pool_spends remove
pool_spends-remove txid [] p h = refl
pool_spends-remove txid ((id, tx) ∷ pool) p h = ground (arith, pool_spends-remove txid pool p)

All-pool_spends-remove :
    (txid : Hash) (pool : Mempool) (inputs : List TxInput)
    → All (λ input. pool_spends pool input.previous_output ≡ false) inputs
    → All (λ input. pool_spends (remove txid pool) input.previous_output ≡ false) inputs
All-pool_spends-remove txid pool [] h = tt
All-pool_spends-remove txid pool (input ∷ inputs) h = (
  pool_spends-remove txid pool input.previous_output h.0,
  All-pool_spends-remove txid pool inputs h.1,
)

-- A pool without conflicts has none after a transaction is removed.
pub remove_transaction-AreConflictFree :
    (txid : Hash) (pool : Mempool)
    → AreConflictFree pool
    → AreConflictFree (remove_transaction txid pool)
unfolding remove_transaction remove
remove_transaction-AreConflictFree txid [] h = tt
remove_transaction-AreConflictFree txid ((id, tx) ∷ pool) h =
    elim (hash_key.eq id txid)
      as (λ d. AreConflictFree (ite d (remove txid pool) ((id, tx) ∷ remove txid pool))) [
        | yes e ↦ remove_transaction-AreConflictFree txid pool h.1
        | no e ↦ (
          All-pool_spends-remove txid pool (get_inputs tx) h.0,
          remove_transaction-AreConflictFree txid pool h.1,
        )
      ]

no_input_conflicts_lem :
    (pool : Mempool) (inputs : List TxInput)
    → no_input_conflicts pool inputs ≡ true
    → All (λ input. pool_spends pool input.previous_output ≡ false) inputs
unfolding no_input_conflicts
no_input_conflicts_lem pool [] h = tt
no_input_conflicts_lem pool (input ∷ inputs) h =
    let (a, b) : (pool_spends pool input.previous_output ≡ false)
        × (no_input_conflicts pool inputs ≡ true) =
      ground arith in
    (a, no_input_conflicts_lem pool inputs b)

valid_if-valid : (b : Bool) → valid_if b ≡ valid → b ≡ true
valid_if-valid true h = refl
valid_if-valid false h = cc

module _ (prims : Primitives) (tx : Transaction) (chain : ChainView) (pool pool' : Mempool) where
  -- A transaction that is admitted has passed each check.
  record Passed : Type 0 where
    pub txid : Hash
    pub identified : identify prims tx ≡ some txid
    pub stored : pool' ≡ insert txid tx pool
    pub structure_valid : validate_transaction_structure prims tx ≡ valid
    pub fees_valid : validate_transaction_fees prims tx chain ≡ valid
    pub scripts_valid : validate_transaction_scripts prims tx chain ≡ valid
    pub policy_valid : validate_transaction_policy prims tx ≡ valid
    pub no_conflicts : validate_no_conflicts prims tx pool ≡ valid

  passed : validate_and_add_transaction prims tx chain pool ≡ admitted pool' → Passed
  unfolding validate_and_add_transaction
  passed h = elim (Option-cases (identify prims tx)) [
    | inl n ↦ absurd (ground arith)
    | inr (txid, e) ↦ record {
      txid = txid;
      identified = e;
      stored = ground arith;
      structure_valid = ground arith;
      fees_valid = ground arith;
      scripts_valid = ground arith;
      policy_valid = ground arith;
      no_conflicts = ground arith;
    }
  ]

  -- A pool without conflicts has none after a transaction is admitted: no two transactions of the
  -- pool ever spend the same output.
  pub validate_and_add_transaction-AreConflictFree :
      validate_and_add_transaction prims tx chain pool ≡ admitted pool'
      → AreConflictFree pool
      → AreConflictFree pool'
  unfolding validate_no_conflicts insert remove_transaction
  validate_and_add_transaction-AreConflictFree h free =
      let p = passed h in
      let apart = no_input_conflicts_lem pool (get_inputs tx) (valid_if-valid _ p.no_conflicts) in
      rw p.stored (
        All-pool_spends-remove p.txid pool (get_inputs tx) apart,
        remove_transaction-AreConflictFree p.txid pool free,
      )

  -- What an admitted transaction is: no coinbase, whose outputs are at least 546 and have scripts of
  -- at most 10000 bytes, whose outputs and a fee of 1000 are covered by the inputs (sums as the
  -- program takes them), and whose scripts `validate_transaction` accepts at the chain's height.
  pub record IsAdmissible : Type 0 where
    pub not_coinbase : is_coinbase tx ≡ false
    pub no_dust : All (λ output. 546 ≤ output.value) (get_outputs tx)
    pub small_scripts : All (λ output. length output.script_pubkey ≤ 10000) (get_outputs tx)
    pub input_value : ℕ
    pub inputs_known : input_total chain.utxo_set 0 (get_inputs tx) ≡ some input_value
    pub pays_fee : output_total 0 (get_outputs tx) + 1000 ≤ input_value
    pub height : ℕ
    pub height_known : chain.current_block_height ≡ some height
    pub scripts_accept :
        accepted (validate_transaction prims tx chain.utxo_set height new_engine) ≡ true

  no_dust_of_structure :
      validate_transaction_structure prims tx ≡ valid
      → (is_coinbase tx ≡ false) × (has_dust (get_outputs tx) ≡ false)
  unfolding validate_transaction_structure
  no_dust_of_structure h = ground arith

  fee_paid :
      validate_transaction_fees prims tx chain ≡ valid
      → (v : ℕ) × (input_total chain.utxo_set 0 (get_inputs tx) ≡ some v)
        × (output_total 0 (get_outputs tx) + 1000 ≤ v)
  unfolding validate_transaction_fees
  fee_paid h = ground arith

  scripts_accepted :
      validate_transaction_scripts prims tx chain ≡ valid
      → (height : ℕ) × (chain.current_block_height ≡ some height)
        × (accepted (validate_transaction prims tx chain.utxo_set height new_engine) ≡ true)
  unfolding validate_transaction_scripts
  scripts_accepted h = ground arith

  policy_met :
      validate_transaction_policy prims tx ≡ valid → has_large_script (get_outputs tx) ≡ false
  unfolding validate_transaction_policy
  policy_met h = ground arith

has_dust_lem :
    (outputs : List TxOutput)
    → has_dust outputs ≡ false
    → All (λ output. 546 ≤ output.value) outputs
unfolding has_dust
has_dust_lem [] h = tt
has_dust_lem (output ∷ outputs) h = (ground arith, has_dust_lem outputs (ground arith))

has_large_script_lem :
    (outputs : List TxOutput)
    → has_large_script outputs ≡ false
    → All (λ output. length output.script_pubkey ≤ 10000) outputs
unfolding has_large_script
has_large_script_lem [] h = tt
has_large_script_lem (output ∷ outputs) h =
    (ground arith, has_large_script_lem outputs (ground arith))

-- The pool admits admissible transactions only: no coinbase, outputs of 546 at least with scripts of
-- at most 10000 bytes, a fee of 1000 at least by the program's sums, and scripts that
-- `validate_transaction` accepts at the chain's height. The new pool finds the transaction by its
-- identifier.
pub validate_and_add_transaction-IsAdmissible :
    (prims : Primitives) (tx : Transaction) (chain : ChainView) (pool pool' : Mempool)
    → validate_and_add_transaction prims tx chain pool ≡ admitted pool'
    → IsAdmissible prims tx chain pool pool'
      × ((txid : Hash) × (identify prims tx ≡ some txid) × (get_transaction txid pool' ≡ some tx))
unfolding get_transaction
validate_and_add_transaction-IsAdmissible prims tx chain pool pool' h =
    let p = passed prims tx chain pool pool' h in
    let s = no_dust_of_structure prims tx chain pool pool' p.structure_valid in
    let (v, known, pays) = fee_paid prims tx chain pool pool' p.fees_valid in
    let (height, read, accepts) = scripts_accepted prims tx chain pool pool' p.scripts_valid in
    (
      record {
        not_coinbase = s.0;
        no_dust = has_dust_lem (get_outputs tx) s.1;
        small_scripts =
            has_large_script_lem (get_outputs tx)
              (policy_met prims tx chain pool pool' p.policy_valid);
        input_value = v;
        inputs_known = known;
        pays_fee = pays;
        height = height;
        height_known = read;
        scripts_accept = accepts;
      },
      (
        p.txid,
        p.identified,
        rw p.stored (
            get-insert p.txid p.txid tx pool
            ∙ if_pos (hash_key.eq p.txid p.txid) refl (some tx) (get p.txid pool)),
      ),
    )
