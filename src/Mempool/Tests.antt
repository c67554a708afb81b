-- ===== src/Mempool/Tests.antt =====
-- The pool's theorems at a transaction of one input and one output.
use rusty_coin.Common.{
  ℕ, ◌+◌, ◌≡◌, ◌≤◌, ◌<◌, refl, List, [], ◌∷◌, ◌++◌, Bool, true, false, Option, none, some, arith,
}
use rusty_coin.Common.Words.{u64_mod}
use rusty_coin.Types.Tx.{Hash, OutPoint, TxInput, TxOutput, Utxo}
use rusty_coin.Types.Transaction.{Transaction, standard, get_inputs}
use rusty_coin.Types.Block.{Encoding}
use rusty_coin.Script.Context.{Primitives}
use rusty_coin.Utxo.Set.{UtxoSet}
use rusty_coin.Mempool.Pool.{Mempool, pool_spends, identify, get_transaction, get_transactions}
use rusty_coin.Mempool.Admission.{ChainView, admitted, validate_and_add_transaction}
use rusty_coin.Mempool.Template.{size_of, sort_by_fee_rate, get_transactions_for_block_template}
use rusty_coin.Mempool.Proofs.Conflicts.{
  AreConflictFree, IsAdmissible, validate_and_add_transaction-AreConflictFree,
  validate_and_add_transaction-IsAdmissible,
}
use rusty_coin.Mempool.Proofs.Selection.{
  total_size, IsByRate, IsFull, get_transactions_for_block_template-select,
}

abbrev primitives : Primitives
primitives = record {
  sha256 = λ bytes. bytes;
  sha1 = λ bytes. bytes;
  ripemd160 = λ bytes. bytes;
  blake3 = λ bytes. bytes;
  public_key_ok = λ key. true;
  signature_ok = λ signature. true;
  verify = λ key message signature. true;
  serialize = λ tx. some (4 ∷ []);
}

abbrev encoding : Encoding
encoding = record { serialize = λ tx. 4 ∷ []; blake3 = λ bytes. bytes }

abbrev spent : OutPoint
spent = record { txid = 1 ∷ []; vout = 0 }

abbrev spending : TxInput
spending = record {
  prev_out_hash = 1 ∷ [];
  prev_out_index = 0;
  previous_output = spent;
  script_sig = [];
  sequence = 0;
  witness = [];
}

-- Anyone may spend an output with the script OP_1.
abbrev open_output : ℕ → TxOutput
open_output value = record { value = value; script_pubkey = 0x51 ∷ []; memo = none }

abbrev payment : Transaction
payment = standard 1 (spending ∷ []) (open_output 3500 ∷ []) 0 1500 []

abbrev chain : ChainView
chain = record {
  utxo_set =
      (spent, record { output = open_output 5000; is_coinbase = false; creation_height = 7 }) ∷ [];
  current_block_height = some 120;
}

abbrev pool_after : Mempool
pool_after = (4 ∷ [], payment) ∷ []

payment_admitted : validate_and_add_transaction primitives payment chain [] ≡ admitted pool_after
unfolding validate_and_add_transaction rusty_coin.Common.HashMap.get
    rusty_coin.Types.Transaction.is_coinbase get_inputs rusty_coin.Types.Transaction.get_outputs
    rusty_coin.Utxo.Set.get_utxo rusty_coin.Types.Tx.outpoint_key rusty_coin.Common.ℕ_discrete
    pool_spends rusty_coin.Script.Validate.validate_transaction
    rusty_coin.Script.Validate.validate_input rusty_coin.Script.Execute.execute
    rusty_coin.Script.Execute.run rusty_coin.Script.Execute.round
    rusty_coin.Script.Execute.instruction rusty_coin.Script.Execute.dispatch
    rusty_coin.Script.Opcode.from_byte rusty_coin.Script.Execute.operate
    rusty_coin.Common.HashMap.insert rusty_coin.Common.HashMap.remove
payment_admitted = refl

pool_after-AreConflictFree : AreConflictFree pool_after
unfolding pool_spends get_inputs
pool_after-AreConflictFree = ((refl, tt), tt)

validate_and_add_transaction-AreConflictFree_example : AreConflictFree pool_after
validate_and_add_transaction-AreConflictFree_example =
    validate_and_add_transaction-AreConflictFree primitives payment chain [] pool_after
      payment_admitted tt

validate_and_add_transaction-IsAdmissible_example :
    IsAdmissible primitives payment chain [] pool_after
    × ((txid : Hash) × (identify primitives payment ≡ some txid)
        × (get_transaction txid pool_after ≡ some payment))
validate_and_add_transaction-IsAdmissible_example =
    validate_and_add_transaction-IsAdmissible primitives payment chain [] pool_after
      payment_admitted

pool_size : total_size encoding (get_transactions pool_after) < u64_mod
unfolding total_size get_transactions size_of
pool_size = omega arith

get_transactions_for_block_template-select_example :
    IsByRate encoding (sort_by_fee_rate encoding (get_transactions pool_after))
    × ((rest : List Transaction) × (sort_by_fee_rate encoding (get_transactions pool_after)
          ≡ get_transactions_for_block_template encoding 1000 pool_after ++ rest)
        × (total_size encoding (get_transactions_for_block_template encoding 1000 pool_after)
            ≤ 1000)
        × IsFull encoding 1000
            (total_size encoding (get_transactions_for_block_template encoding 1000 pool_after))
            rest)
get_transactions_for_block_template-select_example =
    get_transactions_for_block_template-select encoding 1000 pool_after pool_size
