-- ===== src/Common/Words.antt =====
-- Bytes and machine words: little-endian readings, and the moduli of `u8`, `u32` and `u64`.
use Prim.Native.Nat.{ℕ, zero, suc, ◌+◌, ◌*◌, ◌/◌, ◌%◌, ◌^◌, ◌<◌}
use mathlib.Core.Path.{◌≡◌, refl}
use mathlib.Core.List.{List, [], ◌∷◌}
use native.Mathlib.Nat.{pow-suc}
use native.Mathlib.Omega.{arith}
use rusty_coin.Common.Lists.{length, All}

abbrev pub Bytes : Type 0
Bytes = List ℕ

abbrev pub u32_mod : ℕ
u32_mod = 2 ^ 32

abbrev pub u64_mod : ℕ
u64_mod = 2 ^ 64

abbrev pub u64_max : ℕ
u64_max = 18446744073709551615

abbrev pub AreBytes : Bytes → Type 0
AreBytes = All (λ b. b < 256)

-- `uN::from_le_bytes` of a buffer that starts with these bytes and is filled up by zeros.
unfoldable pub from_le_bytes : Bytes → ℕ
from_le_bytes [] = 0
from_le_bytes (b ∷ bs) = b + 256 * from_le_bytes bs

-- `to_le_bytes` of a word of so many bytes.
unfoldable pub to_le_bytes : ℕ → ℕ → Bytes
to_le_bytes zero n = []
to_le_bytes (suc k) n = n % 256 ∷ to_le_bytes k (n / 256)

pub length-to_le_bytes : (k n : ℕ) → length (to_le_bytes k n) ≡ k
unfolding to_le_bytes
length-to_le_bytes zero n = refl
length-to_le_bytes (suc k) n = omega (arith, length-to_le_bytes k (n / 256))

-- Bytes read back from a word are the word, cut to its width.
pub from_le_bytes-to_le_bytes : (k n : ℕ) → n < 256 ^ k → from_le_bytes (to_le_bytes k n) ≡ n
unfolding from_le_bytes to_le_bytes
from_le_bytes-to_le_bytes zero n h = omega arith
from_le_bytes-to_le_bytes (suc k) n h =
    omega (arith, from_le_bytes-to_le_bytes k (n / 256) (omega (arith, pow-suc 256 k)))
