-- ===== src/Validation/Proofs/Chain.antt =====
-- How an accepted block's header follows its parent.
use rusty_coin.Common.{
  ℕ, ◌+◌, ◌-◌, ◌%◌, ◌<◌, ◌≤◌, ◌≡◌, ◌⊎◌, ◌↔◌, sym, ◌∙◌, arith, true, Option, some, List, ◌∷◌, inl,
  inr, Option-cases,
}
use rusty_coin.Common.Result.{ok}
use rusty_coin.Common.Words.{u64_mod}
use rusty_coin.Types.Tx.{Hash, Hash-discrete}
use rusty_coin.Types.Block.{Block, BlockHeader}
use rusty_coin.Merkle.Tree.{calculate_merkle_root_from_transactions}
use rusty_coin.Pow.Compact.{compact_to_target}
use rusty_coin.Slashing.Ticket.{same_hash}
use rusty_coin.Validation.Context.{ValidationContext, block_hash, header_hash}
use rusty_coin.Validation.Header.{
  is_adjustment_height, has_merkle_root, meets_target, verify_pow, validate_block_header,
}
use rusty_coin.Validation.Block.{
  has_own_merkle_root, check_coinbase_and_root, validate_block_comprehensive, validate_block,
  validate_after,
}
use rusty_coin.Validation.Proofs.Rewards.{validate_block_comprehensive-eq-ok}

-- The root of a block's transactions, where it is found.
abbrev pub merkle_root : ValidationContext → Block → Option Hash
merkle_root c block = calculate_merkle_root_from_transactions c.enc block.transactions

-- A header that follows a block at this time: its version, the link to the block, the root of the
-- block's own transactions, the target of the block unless 2016 divides the block's height, a time
-- after the block's and at most two hours ahead, and work whose hash is at most the target.
pub record Follows (c : ValidationContext) (header : BlockHeader) (previous_block : Block)
    (current_time : ℕ) : Type 0 where
  pub version_one : header.version ≡ 1
  pub linked : header.previous_block_hash ≡ block_hash c previous_block
  pub parent_root : merkle_root c previous_block ≡ some header.merkle_root
  pub same_target :
      (previous_block.header.height % u64_mod % 2016 ≡ 0)
      ⊎ (header.difficulty_target ≡ previous_block.header.difficulty_target)
  pub not_ahead : header.timestamp ≤ (current_time + 7200) % u64_mod
  pub later : previous_block.header.timestamp < header.timestamp
  pub worked :
      c.oxide_hash (c.serialize_header (record header { nonce = 0 })) header.nonce
      ≤ compact_to_target header.difficulty_target

same_hash_iff : (a b : Hash) → (same_hash a b ≡ true) ↔ (a ≡ b)
same_hash_iff a b = elim (Hash-discrete a b) [
  | yes p ↦ ground (arith, p)
  | no p ↦ ground (arith, p)
]

has_merkle_root_iff :
    (c : ValidationContext) (root : Hash) (block : Block)
    → (has_merkle_root c root block ≡ true) ↔ (merkle_root c block ≡ some root)
unfolding has_merkle_root
has_merkle_root_iff c root block = elim (Option-cases (merkle_root c block)) [
  | inl n ↦ ground (arith, n)
  | inr (r, e) ↦ ground (arith, e, same_hash_iff root r)
]

is_adjustment_height_iff :
    (height : ℕ)
    → (is_adjustment_height ((height + 1) % u64_mod) ≡ true) ↔ (height % u64_mod % 2016 ≡ 0)
unfolding is_adjustment_height
is_adjustment_height_iff height =
    let e : ((height + 1) % u64_mod + (u64_mod - 1)) % u64_mod ≡ height % u64_mod = omega arith in
    ground (arith, e)

-- The code accepts a header exactly when it follows the block: version 1, the hash of the block and
-- the root of its transactions, the block's target unless 2016 divides the block's height, a time
-- after the block's and at most two hours ahead, and a hash of the work that is at most the target,
-- equal to it included.
pub validate_block_header_iff :
    (c : ValidationContext) (header : BlockHeader) (previous_block : Block) (current_time : ℕ)
    → (validate_block_header c header previous_block current_time ≡ ok tt)
      ↔ Follows c header previous_block current_time
unfolding validate_block_header verify_pow meets_target
validate_block_header_iff c header previous_block current_time =
    let p = same_hash_iff header.previous_block_hash (block_hash c previous_block) in
    let q = has_merkle_root_iff c header.merkle_root previous_block in
    let r = is_adjustment_height_iff previous_block.header.height in
    (
      λ h.
          let (a1, a2, a3, a4, a5, a6, a7) : (header.version ≡ 1)
              × (header.previous_block_hash ≡ block_hash c previous_block)
              × (merkle_root c previous_block ≡ some header.merkle_root)
              × ((previous_block.header.height % u64_mod % 2016 ≡ 0)
                  ⊎ (header.difficulty_target ≡ previous_block.header.difficulty_target))
              × (header.timestamp ≤ (current_time + 7200) % u64_mod)
              × (previous_block.header.timestamp < header.timestamp)
              × (c.oxide_hash (c.serialize_header (record header { nonce = 0 })) header.nonce
                  ≤ compact_to_target header.difficulty_target) =
            ground (arith, p, q, r) in
          record {
            version_one = a1;
            linked = a2;
            parent_root = a3;
            same_target = a4;
            not_ahead = a5;
            later = a6;
            worked = a7;
          },
      λ f. ground (arith, p, q, r),
    )

check_coinbase_and_root-eq-ok :
    (c : ValidationContext) (block : Block)
    → check_coinbase_and_root c block ≡ ok tt
    → merkle_root c block ≡ some block.header.merkle_root
unfolding check_coinbase_and_root has_own_merkle_root
check_coinbase_and_root-eq-ok c block h =
    ground (arith, has_merkle_root_iff c block.header.merkle_root block)

-- The header of an accepted block holds the Merkle root of the parent's transactions and that of its
-- own, so that the two roots are the same.
pub validate_block_comprehensive-merkle_root :
    (c : ValidationContext) (block prev_block : Block) (blocks : List Block) (current_time : ℕ)
    → validate_block_comprehensive c block (prev_block ∷ blocks) current_time ≡ ok tt
    → merkle_root c block ≡ merkle_root c prev_block
validate_block_comprehensive-merkle_root c block prev_block blocks current_time h =
    let (e, _, r, _, _, _) =
      validate_block_comprehensive-eq-ok c block prev_block blocks current_time h in
    let f = (validate_block_header_iff c block.header prev_block current_time).0 e in
    check_coinbase_and_root-eq-ok c block r ∙ sym f.parent_root

-- A block that `validate_block` accepts has the height after its parent's, the root of its own
-- transactions and of its parent's, and its parent's header has the hash of the whole parent.
pub validate_block-hashes :
    (c : ValidationContext) (block prev_block : Block) (blocks : List Block) (current_time : ℕ)
    → validate_block c block (prev_block ∷ blocks) current_time ≡ ok tt
    → (block.header.height ≡ (prev_block.header.height + 1) % u64_mod)
      × (merkle_root c block ≡ merkle_root c prev_block)
      × (header_hash c prev_block.header ≡ block_hash c prev_block)
unfolding validate_block validate_after has_own_merkle_root
validate_block-hashes c block prev_block blocks current_time h =
    let p = same_hash_iff block.header.previous_block_hash (header_hash c prev_block.header) in
    let q = has_merkle_root_iff c block.header.merkle_root block in
    let (a, b, d, e) : (block.header.previous_block_hash ≡ header_hash c prev_block.header)
        × (block.header.height ≡ (prev_block.header.height + 1) % u64_mod)
        × (merkle_root c block ≡ some block.header.merkle_root)
        × (validate_block_header c block.header prev_block current_time ≡ ok tt) =
      ground (arith, p, q) in
    let f = (validate_block_header_iff c block.header prev_block current_time).0 e in
    (b, d ∙ sym f.parent_root, sym a ∙ f.linked)
