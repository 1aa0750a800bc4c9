-- ===== src/Armv8/Encode/LoadStore.antt =====
-- The classes of instructions/opx1x0: loads and stores at an unsigned, an unscaled and a register
-- offset.
use zeldar.Base.{ℕ, ◌+◌, ◌%◌, ◌^◌, Bool, true, false, ◌&&◌, ◌==◌, if◌then◌else◌, nat_of}
use zeldar.Armv8.BitSet.{set_bits}
use zeldar.Armv8.Register.{Register, sf_of, is64, is32}
use zeldar.Armv8.Encode.{opx1x0_instruction}

-- `GetSize(rt)`, that is `0b10 | rt.Is64()`.
abbrev pub get_size : Register → ℕ
get_size rt = 0b10 + sf_of rt

-- `LoadStoreRegisterUnsignedImmediate(size, v, opc, imm12, rn, rt)`.
unfoldable pub load_store_unsigned : ℕ → ℕ → ℕ → ℕ → Register → Register → ℕ
unfolding opx1x0_instruction
load_store_unsigned size v opc imm12 rn rt =
    let set_op2 = set_bits 23 25 0b10 (opx1x0_instruction 0b0011) in
    let set_size = set_bits 30 32 size set_op2 in
    let set_v = set_bits 26 27 v set_size in
    let set_opc = set_bits 22 24 opc set_v in
    let set_imm12 = set_bits 10 22 imm12 set_opc in
    let set_rn = set_bits 5 10 rn.index set_imm12 in set_bits 0 5 rt.index set_rn

unfoldable pub ldr_register_immediate : Register → Register → ℕ → ℕ
unfolding load_store_unsigned is64
ldr_register_immediate rt rn imm12 = load_store_unsigned (get_size rt) 0b0 0b01 imm12 rn rt

unfoldable pub str_register_immediate : Register → Register → ℕ → ℕ
unfolding load_store_unsigned is64
str_register_immediate rt rn imm12 = load_store_unsigned (get_size rt) 0b0 0b00 imm12 rn rt

-- `SignExtend<9>` of src/lib/util/math/sign_extend.hpp: a bit field of 9 signed bits takes the low
-- bits, and the mask cuts the sign off again.
unfoldable pub sign_extend9 : ℕ → ℕ
sign_extend9 imm9 = imm9 % 2 ^ 9

-- `LoadStoreRegisterUnscaledImmediate(size, v, opc, imm9, rn, rt)`; `imm9` is a pattern of 16 bits.
unfoldable pub load_store_unscaled : ℕ → ℕ → ℕ → ℕ → Register → Register → ℕ
unfolding opx1x0_instruction sign_extend9
load_store_unscaled size v opc imm9 rn rt =
    let set_op2 = set_bits 23 25 0b00 (opx1x0_instruction 0b0011) in
    let set_op3 = set_bits 16 22 0b000000 set_op2 in
    let set_op4 = set_bits 10 12 0b00 set_op3 in
    let set_size = set_bits 30 32 size set_op4 in
    let set_v = set_bits 26 27 v set_size in
    let set_opc = set_bits 22 24 opc set_v in
    let set_imm9 = set_bits 12 21 (sign_extend9 imm9) set_opc in
    let set_rn = set_bits 5 10 rn.index set_imm9 in set_bits 0 5 rt.index set_rn

unfoldable pub ldur_unscaled_immediate : Register → Register → ℕ → ℕ
unfolding load_store_unscaled is64
ldur_unscaled_immediate rt rn imm9 = load_store_unscaled (get_size rt) 0b0 0b01 imm9 rn rt

unfoldable pub stur_unscaled_immediate : Register → Register → ℕ → ℕ
unfolding load_store_unscaled is64
stur_unscaled_immediate rt rn imm12 = load_store_unscaled (get_size rt) 0b0 0b00 imm12 rn rt

-- `ExtendType`; the source gives `UXTX` and `LSL` one code.
pub data ExtendType : Type 0 where
  uxtb uxth uxtw lsl sxtb sxth sxtw sxtx : ExtendType

unfoldable pub create_option : ExtendType → ℕ
create_option extend = elim extend [
  | ExtendType.uxtw ↦ 0b010
  | ExtendType.lsl ↦ 0b011
  | ExtendType.sxtw ↦ 0b110
  | ExtendType.sxtx ↦ 0b111
  | _ ↦ 0b000
]

unfoldable pub create_s : Register → ℕ → Bool
unfolding is64 is32
create_s rt amount =
    if amount == 0
    then false
    else if is64 rt && amount == 3
    then true
    else if is32 rt && amount == 2
    then true
    else false

-- `LoadStoreRegisterOffset(size, v, opc)`.
unfoldable pub load_store_register_offset : ℕ → ℕ → ℕ → ℕ
unfolding opx1x0_instruction
load_store_register_offset size v opc =
    let set_size = set_bits 30 32 size (opx1x0_instruction 0b0011) in
    let set_opc = set_bits 22 24 opc set_size in
    let set_op1 = set_bits 26 27 0 set_opc in
    let set_op2 = set_bits 23 25 0b00 set_op1 in
    let set_op3 = set_bits 16 22 0b100000 set_op2 in
    let set_op4 = set_bits 10 12 0b10 set_op3 in set_bits 26 27 v set_op4

-- The setters of the bodies of `LdrRegisterOffset` and `StrRegisterOffset`.
unfoldable pub set_offset_operands : Register → Register → Register → ExtendType → ℕ → ℕ → ℕ
unfolding create_option create_s is64
set_offset_operands rt rn rm extend amount word =
    let set_size = set_bits 30 32 (get_size rt) word in
    let set_rm = set_bits 16 21 rm.index set_size in
    let set_option = set_bits 13 16 (create_option extend) set_rm in
    let set_s = set_bits 12 13 (nat_of (create_s rt amount)) set_option in
    let set_rt = set_bits 0 5 rt.index set_s in set_bits 5 10 rn.index set_rt

unfoldable pub ldr_register_offset : Register → Register → Register → ExtendType → ℕ → ℕ
unfolding load_store_register_offset set_offset_operands is64
ldr_register_offset rt rn rm extend amount =
    set_offset_operands rt rn rm extend amount (load_store_register_offset (get_size rt) 0b0 0b01)

unfoldable pub str_register_offset : Register → Register → Register → ExtendType → ℕ → ℕ
unfolding load_store_register_offset set_offset_operands is64
str_register_offset rt rn rm extend amount =
    set_offset_operands rt rn rm extend amount (load_store_register_offset (get_size rt) 0b0 0b00)
