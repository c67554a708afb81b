-- ===== src/Script/Opcode.antt =====
-- The opcodes (rusty-core/src/script/opcode.rs). A constructor is named after its variant.
use rusty_coin.Common.{ℕ, List, [], ◌∷◌, ◌==◌, if◌then◌else◌}

pub data Opcode : Type 0 where
  op0 op_pushdata1 op_pushdata2 op_pushdata4 op1 op2 op3 op4 op5 op6 op7 op8 op9 : Opcode
  op10 op11 op12 op13 op14 op15 op16 op_nop op_if op_not_if op_else op_end_if : Opcode
  op_verify op_return op_to_alt_stack op_from_alt_stack op_if_dup op_depth : Opcode
  op_drop op_dup op_nip op_over op_pick op_roll op_rot op_swap op_tuck op2_drop : Opcode
  op2_dup op3_dup op2_over op2_rot op2_swap op_cat op_sub_str op_left op_right : Opcode
  op_size op_invert op_and op_or op_xor op_equal op_equalverify op1_add op1_sub : Opcode
  op2_mul op2_div op_negate op_abs op_not op0_not_equal op_add op_sub op_mul : Opcode
  op_div op_mod op_lshift op_rshift op_bool_and op_bool_or op_num_equal : Opcode
  op_num_equal_verify op_num_not_equal op_less_than op_greater_than : Opcode
  op_less_than_or_equal op_greater_than_or_equal op_min op_max op_within : Opcode
  op_ripemd160 op_sha1 op_sha256 op_hash160 op_hash256 op_code_separator : Opcode
  op_check_sig op_check_sig_verify op_check_multi_sig op_check_multi_sig_verify : Opcode
  op_check_lock_time_verify op_check_sequence_verify op_invalid_opcode : Opcode

-- `opcode as u8`: the discriminants of the enum.
unfoldable pub to_byte : Opcode → ℕ
to_byte op0 = 0x00
to_byte op_pushdata1 = 0x4C
to_byte op_pushdata2 = 0x4D
to_byte op_pushdata4 = 0x4E
to_byte op1 = 0x51
to_byte op2 = 0x52
to_byte op3 = 0x53
to_byte op4 = 0x54
to_byte op5 = 0x55
to_byte op6 = 0x56
to_byte op7 = 0x57
to_byte op8 = 0x58
to_byte op9 = 0x59
to_byte op10 = 0x5A
to_byte op11 = 0x5B
to_byte op12 = 0x5c
to_byte op13 = 0x5D
to_byte op14 = 0x5E
to_byte op15 = 0x5F
to_byte op16 = 0x60
to_byte op_nop = 0x61
to_byte op_if = 0x63
to_byte op_not_if = 0x64
to_byte op_else = 0x67
to_byte op_end_if = 0x68
to_byte op_verify = 0x69
to_byte op_return = 0x6A
to_byte op_to_alt_stack = 0x6B
to_byte op_from_alt_stack = 0x6C
to_byte op_if_dup = 0x73
to_byte op_depth = 0x74
to_byte op_drop = 0x75
to_byte op_dup = 0x76
to_byte op_nip = 0x77
to_byte op_over = 0x78
to_byte op_pick = 0x79
to_byte op_roll = 0x7A
to_byte op_rot = 0x7B
to_byte op_swap = 0x7C
to_byte op_tuck = 0x7D
to_byte op2_drop = 0x6D
to_byte op2_dup = 0x6E
to_byte op3_dup = 0x6F
to_byte op2_over = 0x70
to_byte op2_rot = 0x71
to_byte op2_swap = 0x72
to_byte op_cat = 0x7E
to_byte op_sub_str = 0x7F
to_byte op_left = 0x80
to_byte op_right = 0x81
to_byte op_size = 0x82
to_byte op_invert = 0x83
to_byte op_and = 0x84
to_byte op_or = 0x85
to_byte op_xor = 0x86
to_byte op_equal = 0x87
to_byte op_equalverify = 0x88
to_byte op1_add = 0x8B
to_byte op1_sub = 0x8C
to_byte op2_mul = 0x8D
to_byte op2_div = 0x8E
to_byte op_negate = 0x8F
to_byte op_abs = 0x90
to_byte op_not = 0x91
to_byte op0_not_equal = 0x92
to_byte op_add = 0x93
to_byte op_sub = 0x94
to_byte op_mul = 0x95
to_byte op_div = 0x96
to_byte op_mod = 0x97
to_byte op_lshift = 0x98
to_byte op_rshift = 0x99
to_byte op_bool_and = 0x9A
to_byte op_bool_or = 0x9B
to_byte op_num_equal = 0x9C
to_byte op_num_equal_verify = 0x9D
to_byte op_num_not_equal = 0x9E
to_byte op_less_than = 0x9F
to_byte op_greater_than = 0xA0
to_byte op_less_than_or_equal = 0xA1
to_byte op_greater_than_or_equal = 0xA2
to_byte op_min = 0xA3
to_byte op_max = 0xA4
to_byte op_within = 0xA5
to_byte op_ripemd160 = 0xA6
to_byte op_sha1 = 0xA7
to_byte op_sha256 = 0xA8
to_byte op_hash160 = 0xA9
to_byte op_hash256 = 0xAA
to_byte op_code_separator = 0xAB
to_byte op_check_sig = 0xAC
to_byte op_check_sig_verify = 0xAD
to_byte op_check_multi_sig = 0xAE
to_byte op_check_multi_sig_verify = 0xAF
to_byte op_check_lock_time_verify = 0xB1
to_byte op_check_sequence_verify = 0xB2
to_byte op_invalid_opcode = 0xFF

-- The arms of the match in `From<u8>`, in order.
abbrev pub byte_arms : List (ℕ × Opcode)
byte_arms =
    (0x00, op0)
    ∷ (0x4C, op_pushdata1)
    ∷ (0x4D, op_pushdata2)
    ∷ (0x4E, op_pushdata4)
    ∷ (0x51, op1)
    ∷ (0x52, op2)
    ∷ (0x53, op3)
    ∷ (0x54, op4)
    ∷ (0x55, op5)
    ∷ (0x56, op6)
    ∷ (0x57, op7)
    ∷ (0x58, op8)
    ∷ (0x59, op9)
    ∷ (0x5A, op10)
    ∷ (0x5B, op11)
    ∷ (0x5c, op12)
    ∷ (0x5D, op13)
    ∷ (0x5E, op14)
    ∷ (0x5F, op15)
    ∷ (0x60, op16)
    ∷ (0x61, op_nop)
    ∷ (0x63, op_if)
    ∷ (0x64, op_not_if)
    ∷ (0x67, op_else)
    ∷ (0x68, op_end_if)
    ∷ (0x69, op_verify)
    ∷ (0x6A, op_return)
    ∷ (0x6B, op_to_alt_stack)
    ∷ (0x6C, op_from_alt_stack)
    ∷ (0x73, op_if_dup)
    ∷ (0x74, op_depth)
    ∷ (0x75, op_drop)
    ∷ (0x76, op_dup)
    ∷ (0x77, op_nip)
    ∷ (0x78, op_over)
    ∷ (0x79, op_pick)
    ∷ (0x7A, op_roll)
    ∷ (0x7B, op_rot)
    ∷ (0x7C, op_swap)
    ∷ (0x7D, op_tuck)
    ∷ (0x6D, op2_drop)
    ∷ (0x6E, op2_dup)
    ∷ (0x6F, op3_dup)
    ∷ (0x70, op2_over)
    ∷ (0x71, op2_rot)
    ∷ (0x72, op2_swap)
    ∷ (0x7E, op_cat)
    ∷ (0x7F, op_sub_str)
    ∷ (0x80, op_left)
    ∷ (0x81, op_right)
    ∷ (0x82, op_size)
    ∷ (0x83, op_invert)
    ∷ (0x84, op_and)
    ∷ (0x85, op_or)
    ∷ (0x86, op_xor)
    ∷ (0x87, op_equal)
    ∷ (0x88, op_equalverify)
    ∷ (0x8B, op1_add)
    ∷ (0x8C, op1_sub)
    ∷ (0x8D, op2_mul)
    ∷ (0x8E, op2_div)
    ∷ (0x8F, op_negate)
    ∷ (0x90, op_abs)
    ∷ (0x91, op_not)
    ∷ (0x92, op0_not_equal)
    ∷ (0x93, op_add)
    ∷ (0x94, op_sub)
    ∷ (0x95, op_mul)
    ∷ (0x96, op_div)
    ∷ (0x97, op_mod)
    ∷ (0x98, op_lshift)
    ∷ (0x99, op_rshift)
    ∷ (0x9A, op_bool_and)
    ∷ (0x9B, op_bool_or)
    ∷ (0x9C, op_num_equal)
    ∷ (0x9D, op_num_equal_verify)
    ∷ (0x9E, op_num_not_equal)
    ∷ (0x9F, op_less_than)
    ∷ (0xA0, op_greater_than)
    ∷ (0xA1, op_less_than_or_equal)
    ∷ (0xA2, op_greater_than_or_equal)
    ∷ (0xA3, op_min)
    ∷ (0xA4, op_max)
    ∷ (0xA5, op_within)
    ∷ (0xA6, op_ripemd160)
    ∷ (0xA7, op_sha1)
    ∷ (0xA8, op_sha256)
    ∷ (0xA9, op_hash160)
    ∷ (0xAA, op_hash256)
    ∷ (0xAB, op_code_separator)
    ∷ (0xAC, op_check_sig)
    ∷ (0xAD, op_check_sig_verify)
    ∷ (0xAE, op_check_multi_sig)
    ∷ (0xAF, op_check_multi_sig_verify)
    ∷ (0xB1, op_check_lock_time_verify)
    ∷ (0xB2, op_check_sequence_verify)
    ∷ []

-- The first arm whose literal is the byte, else the wildcard arm.
unfoldable pub first_arm : List (ℕ × Opcode) → ℕ → Opcode
first_arm [] byte = op_invalid_opcode
first_arm ((literal, opcode) ∷ arms) byte = if byte == literal then opcode else first_arm arms byte

-- `Opcode::from(byte)`
unfoldable pub from_byte : ℕ → Opcode
unfolding first_arm
from_byte byte = first_arm byte_arms byte
