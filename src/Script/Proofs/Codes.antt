-- ===== src/Script/Proofs/Codes.antt =====
-- The two conversions between opcodes and bytes.
use rusty_coin.Common.{
  ℕ, ◌≡◌, ◌⊎◌, inl, inr, refl, arith, All, List, [], ◌∷◌, ◌==◌, ==_iff, Bool-cases, sym, ◌∙◌,
}
use rusty_coin.Script.Opcode.{Opcode, to_byte, from_byte, byte_arms, first_arm}

-- Every opcode, the pseudo-word for an invalid one included, is read back from its byte.
pub from_byte-to_byte : (op : Opcode) → from_byte (to_byte op) ≡ op
unfolding from_byte to_byte
from_byte-to_byte Opcode.op0 = refl
from_byte-to_byte _ = refl

-- Every arm of the match has the byte of its opcode.
abbrev AreCoded : List (ℕ × Opcode) → Type 0
AreCoded = All (λ arm. to_byte arm.1 ≡ arm.0)

first_arm_coded :
    (arms : List (ℕ × Opcode)) (b : ℕ)
    → AreCoded arms
    → (first_arm arms b ≡ Opcode.op_invalid_opcode) ⊎ (to_byte (first_arm arms b) ≡ b)
unfolding first_arm
first_arm_coded [] b h = inl refl
first_arm_coded ((literal, word) ∷ arms) b h = elim (Bool-cases (b == literal)) [
  | inl p ↦ rw (p, first_arm) (inr (h.0 ∙ sym ((==_iff b literal).0 p)))
  | inr p ↦ rw (p, first_arm) (first_arm_coded arms b h.1)
]

byte_arms-AreCoded : AreCoded byte_arms
unfolding to_byte
byte_arms-AreCoded = omega arith

-- A byte is read as the invalid opcode, or as the opcode that has this byte.
pub from_byte-cases :
    (b : ℕ) → (from_byte b ≡ Opcode.op_invalid_opcode) ⊎ (to_byte (from_byte b) ≡ b)
unfolding from_byte
from_byte-cases b = first_arm_coded byte_arms b byte_arms-AreCoded
