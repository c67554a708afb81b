-- ===== src/Script/Ops/Digest.antt =====
-- The digest words. The digests themselves are primitives of other crates.
use rusty_coin.Script.Context.{Primitives}
use rusty_coin.Script.Engine.{Exec, pure, ◌>>=◌, push_data, pop_data}

module _ (prims : Primitives) where
  -- `Ripemd160(Sha256(data))`
  unfoldable pub op_hash160 : Exec (Unit {0})
  unfolding push_data pop_data
  op_hash160 = do value ← pop_data; push_data (prims.ripemd160 (prims.sha256 value))

  unfoldable pub op_ripemd160 : Exec (Unit {0})
  unfolding push_data pop_data
  op_ripemd160 = do value ← pop_data; push_data (prims.ripemd160 value)

  unfoldable pub op_sha1 : Exec (Unit {0})
  unfolding push_data pop_data
  op_sha1 = do value ← pop_data; push_data (prims.sha1 value)

  unfoldable pub op_sha256 : Exec (Unit {0})
  unfolding push_data pop_data
  op_sha256 = do value ← pop_data; push_data (prims.sha256 value)

  unfoldable pub op_hash256 : Exec (Unit {0})
  unfolding push_data pop_data
  op_hash256 = do value ← pop_data; push_data (prims.sha256 (prims.sha256 value))

  unfoldable pub op_codeseparator : Exec (Unit {0})
  op_codeseparator = pure tt
