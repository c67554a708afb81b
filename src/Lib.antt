-- ===== src/Lib.antt =====
-- The core of Rusty-Coin, a blockchain node: its scripts, its set of unspent outputs, its pool of
-- unconfirmed transactions, its Merkle roots and targets, its tickets, its state trie, its governance,
-- and the federations and the peg of its sidechains.
--
-- Parts, and how they interact. A transaction's input names an outpoint; the UTXO set
-- (rusty-core/src/consensus/utxo_set.rs) finds the output there, with its locking script; the script
-- engine (rusty-core/src/script/script_engine.rs) runs the input's unlocking script and the locking
-- script; the pool (rusty-core/src/mempool.rs) admits a transaction by both, and
-- fills blocks; a block is validated against its parent and the set
-- (rusty-consensus/src/validation.rs), and its transactions are then applied to the set, or reverted
-- from it. A Merkle
-- root in the block's header commits to them, and the target of the header is adjusted by the times
-- of the blocks (rusty-consensus/src/pow.rs). Tickets that the block's transactions buy become live,
-- and the live ones with the highest scores vote on the next block (rusty-core/src/consensus/pos.rs).
-- Proposals and votes gather in the active proposals
-- (rusty-core/src/consensus/governance_state.rs); the federation integrator
-- (rusty-core/src/sidechain/federation_integrator.rs) takes updates of a sidechain's federation that
-- a proposal names and applies them to the federation manager (federation_manager.rs) at their
-- height; the peg manager (two_way_peg.rs) asks the integrator for the federation that must have
-- signed a request.
--
--   Common: lists over the native numbers, Boolean tests, bytes and machine words, and `HashMap` as
--   an association list with one entry for a key (HashMap), `Result`, `sort_by` (Sorting) and the
--   members of a sorted list (Ranked).
--   Types: the types of rusty-shared-types/src (lib.rs, governance.rs, masternode.rs): outpoints,
--   inputs, outputs (Tx), the payloads of special transactions (Payload), the enum `Transaction`
--   with its accessors (Transaction), blocks and `txid` (Block). Arrays of bytes are lists.
--   Script.Opcode: rusty-core/src/script/opcode.rs, both conversions arm by arm.
--   Script.Engine, Script.Context: the struct `ScriptEngine` as a record, `ScriptError`, and the
--   outcome of an operation: a value and the new engine, an error and the engine that the failed
--   operation left, or a panic, which aborts the process (the release profile says so). A stack is
--   a list with its top first.
--   Script.Ops: one function for each `op_*` method, by kind (Stack, Splice, Flow, Digest,
--   Signature, Locktime).
--   Script.Execute: `ScriptEngine::execute`. The loop over the instruction pointer is a recursion on
--   the bytes that are left, with the number of bytes that a push has read already; no fuel is used.
--   Script.Validate: `validate_transaction`, `verify_script`, `verify_script_with_sig_op_count`.
--   Script.Standard: rusty-core/src/script/script_engine/standard_scripts.rs, and
--   `execute_standard_script`.
--   Utxo: rusty-core/src/consensus/utxo_set.rs: the set (Set), `update_from_transaction`,
--   `update_from_block`, `apply_block` (Update), `revert_block` (Revert) and the checks from
--   `validate_transaction_inputs` to `validate_transaction_comprehensive` (Validate). A method that
--   changes the set takes it and gives the new one.
--   Mempool: rusty-core/src/mempool.rs: the pool as a map from identifiers to transactions, its
--   plain operations (Pool), `validate_and_add_transaction` with its seven checks (Admission), and
--   the choice of transactions for a block template, without its logging (Template). What the checks
--   read of the `Blockchain` is the record `ChainView`. `get_all_transactions` sorts by
--   floating-point numbers and is not modelled.
--   Merkle.Tree: `block_merkle_root` (rusty-consensus/src/pow.rs) and the methods
--   `calculate_merkle_root_from_*` of `Block` (rusty-shared-types/src/lib.rs). The loop over the
--   levels has the number of hashes for fuel: each round halves the level, rounded up.
--   Pow.Compact: `compact_to_target` and `target_to_compact` (rusty-consensus/src/pow.rs). The bytes of
--   a target are counted with fuel for the 32 of a `U256`.
--   Pow.Target: `calculate_new_target` (rusty-consensus/src/pow.rs). A `U256` is a number, whose
--   product panics from 2 ^ 256 on.
--   Tickets: rusty-core/src/consensus/pos.rs: the pool of live tickets, which blocks change and
--   reverted blocks change back (Pool), `select_voters` and the price of a ticket (Selection). The
--   hash, the bytes of an identifier and the rounded product of `f64` are parameters; the sort is an
--   insertion sort.
--   Trie: rusty-core/src/state/merkle_patricia_trie.rs: nodes and half-bytes (Node), lookup and
--   insertion over the map of nodes (Store), proofs and their verification (Proof). A recursion has
--   one more than the length of the key for fuel, since each step but an extension without a prefix,
--   which an insertion never makes, takes a half-byte off the key; `exhausted` is its end.
--   Validation: rusty-consensus/src/validation.rs: the errors, the state read and the foreign parts
--   (Context); outputs and their scripts (Outputs), lock times (Locktime), `validate_transaction`
--   (Inputs), `validate_transaction_structure` (Structure), the checks by type of transaction
--   (Payload), `validate_transactions` (Transactions), `validate_block_header` and `verify_pow`
--   (Header), the fees and the reward (Fees), the votes, with those of rusty-consensus/src/pos.rs
--   (Votes), `validate_block` and `validate_block_comprehensive` (Block), heartbeats and
--   deregistrations (Masternode), `apply_block_to_utxo_set` (Apply). A check gives its result, an
--   error or the panic of a script; the operator `?` is the bind of `Result`.
--   Slashing.Ticket: rusty-consensus/src/pos_slashing.rs.
--   BlockSize.Adaptive: rusty-consensus/src/adaptive_block_size.rs: the limit on the size of a block
--   that follows the median size of the blocks of a period. Sizes are kept with the newest first, and
--   the products with the `f64` factors are parameters.
--   Governance.Proposals: `ActiveProposals`, its votes and `evaluate_proposal_at_height`. The
--   comparison of a quotient of `f64` with a limit is a parameter, and so is the type of the limits.
--   Sidechain.Signature: `FederationSignature` (rusty-core/src/sidechain/types.rs) and its
--   verification (federation_manager.rs); the crate threshold_crypto is the record `ThresholdCrypto`.
--   Sidechain.Federation: `FederationEpoch` and `FederationManager`; the threshold that an update of
--   the members computes by `f64` is a parameter.
--   Sidechain.Integrator: `FederationIntegrator`. `get_federation_manager_mut`, which lends a manager
--   out, has no caller and is left out.
--   Sidechain.Peg: `TwoWayPegManager`. The random identifier of a request and its time are arguments.
--   Script.Proofs, Utxo.Proofs, Mempool.Proofs, Merkle.Proofs, Pow.Proofs, Tickets.Proofs,
--   Trie.Proofs, Validation.Proofs, Slashing.Proofs, BlockSize.Proofs, Governance.Proofs and Sidechain.Proofs: the
--   theorems.
--   The modules Tests of each part: examples.
--
-- Numbers are natural numbers; where the program's arithmetic wraps around, in a release build, the
-- modulus is written out (sums of values, heights times sixty, offsets, indices of outputs).
-- `usize` is taken to have 64 bits. Loops are structural recursions, but for those with fuel named
-- above, and have no bound on their length. Hashes and other arrays of bytes are lists, whose length
-- and elements are not restricted.
--
-- Parameters: the crates sha2, sha1, ripemd, blake3, ed25519_dalek and bincode, as the fields of
-- `Primitives` and `Encoding`. Nothing is assumed of them but what a theorem names. Where the
-- program unwraps the result of bincode, `Encoding.serialize` stands for the result of a success. The
-- crate rocksdb is the record `Database`, whose law is that a batch that is taken is written in its
-- order; the sizes of bincode and the proof-of-work hash of rusty-crypto are fields of `ValidationContext`. The
-- crate threshold_crypto, the hash of a trie's node, the hash and the bytes of a ticket's identifier,
-- and what is computed by `f64` are arguments of the definitions that use them.
--
-- Not modelled: the two methods of the UTXO set that read and write files; the audits at the end of
-- the validation, which only report; the chain's state; the trie's deletion, batch and range proofs;
-- the mining loop; masternodes; proofs between chains; networking, remote procedure calls, wallet and
-- node, which are input and output around foreign crates. Logging has no effect on the state and is left out.
pub mod Common
pub mod Types
pub mod Script
pub mod Utxo
pub mod Mempool
pub mod Merkle
pub mod Pow
pub mod Governance
pub mod Sidechain
pub mod Tickets
pub mod Trie
pub mod Validation
pub mod Slashing
pub mod BlockSize
