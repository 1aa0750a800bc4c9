-- ===== src/Armv8/Encode/Arithmetic.antt =====
-- The classes of instructions/op100x and instructions/opx101: arithmetic with an immediate, wide
-- moves, addresses relative to the instruction, and the logical operation on a shifted register.
use zeldar.Base.{ℕ, ◌-◌, ◌/◌, ◌^◌, Bool, not, ◌&&◌, ◌==◌, if◌then◌else◌, bit_and, nat_of, u16}
use zeldar.Armv8.BitSet.{set_bits}
use zeldar.Armv8.Register.{Register, sf_of, is64, none32, none64}
use zeldar.Armv8.Encode.{op100x_instruction, opx101_instruction}

-- `AddSubtractImmediate(sf, op, s)`.
unfoldable pub add_subtract_immediate : ℕ → ℕ → ℕ → ℕ
unfolding op100x_instruction
add_subtract_immediate sf op s =
    let set_sf = set_bits 31 32 sf (op100x_instruction 0b010) in
    let set_op = set_bits 30 31 op set_sf in set_bits 29 30 s set_op

-- `MaskForImmShift`.
abbrev pub mask_for_imm_shift : ℕ
mask_for_imm_shift = 2 ^ 12 - 1

unfoldable pub calc_sh : ℕ → Bool
calc_sh imm = not (imm == 0) && (bit_and imm mask_for_imm_shift == 0)

unfoldable pub calc_imm : ℕ → ℕ
unfolding calc_sh
calc_imm imm = u16 (if calc_sh imm then imm / 2 ^ 12 else imm)

-- The setters of the four constructors below, which differ in `Op` and `S` only.
unfoldable pub set_operands : Register → Register → ℕ → ℕ → ℕ
unfolding calc_imm
set_operands rd rn imm word =
    let set_rd = set_bits 0 5 rd.index word in
    let set_rn = set_bits 5 10 rn.index set_rd in
    let set_imm12 = set_bits 10 22 (calc_imm imm) set_rn in
    set_bits 22 23 (nat_of (calc_sh imm)) set_imm12

unfoldable pub add_immediate : Register → Register → ℕ → ℕ
unfolding add_subtract_immediate set_operands is64
add_immediate rd rn imm = set_operands rd rn imm (add_subtract_immediate (sf_of rd) 0b0 0b0)

unfoldable pub adds_immediate : Register → Register → ℕ → ℕ
unfolding add_subtract_immediate set_operands is64
adds_immediate rd rn imm = set_operands rd rn imm (add_subtract_immediate (sf_of rd) 0b0 0b1)

unfoldable pub sub_immediate : Register → Register → ℕ → ℕ
unfolding add_subtract_immediate set_operands is64
sub_immediate rd rn imm = set_operands rd rn imm (add_subtract_immediate (sf_of rd) 0b1 0b0)

unfoldable pub subs_immediate : Register → Register → ℕ → ℕ
unfolding add_subtract_immediate set_operands is64
subs_immediate rd rn imm = set_operands rd rn imm (add_subtract_immediate (sf_of rd) 0b1 0b1)

-- `GetRd` of `CmnImmediate` and `CmpImmediate`, and `GetRn` of `MovRegister`.
unfoldable pub none_like : Register → Register
unfolding is64
none_like r = if is64 r then none64 else none32

unfoldable pub cmn_immediate : Register → ℕ → ℕ
unfolding adds_immediate none_like
cmn_immediate r imm = adds_immediate (none_like r) r imm

unfoldable pub cmp_immediate : Register → ℕ → ℕ
unfolding subs_immediate none_like
cmp_immediate r imm = subs_immediate (none_like r) r imm

-- `MoveWideImmediate(reg, opc, hw, imm)`.
unfoldable pub move_wide_immediate : Register → ℕ → ℕ → ℕ → ℕ
unfolding op100x_instruction is64
move_wide_immediate r opc hw imm =
    let set_sf = set_bits 31 32 (sf_of r) (op100x_instruction 0b101) in
    let set_opc = set_bits 29 31 opc set_sf in
    let set_hw = set_bits 21 23 hw set_opc in
    let set_imm16 = set_bits 5 21 imm set_hw in set_bits 0 5 r.index set_imm16

unfoldable pub movk : Register → ℕ → ℕ
unfolding move_wide_immediate
movk r imm = move_wide_immediate r 0b11 0b00 imm

unfoldable pub movn : Register → ℕ → ℕ
unfolding move_wide_immediate
movn r imm = move_wide_immediate r 0b00 0b00 imm

unfoldable pub movz : Register → ℕ → ℕ
unfolding move_wide_immediate
movz r imm = move_wide_immediate r 0b10 0b00 imm

-- `PcRelAddressing(reg, imm, op)`; `ImmloMask.Count` is 2.
unfoldable pub pc_rel_addressing : Register → ℕ → ℕ → ℕ
unfolding op100x_instruction
pc_rel_addressing r imm op =
    let set_op = set_bits 31 32 op (op100x_instruction 0b000) in
    let set_immlo = set_bits 29 31 imm set_op in
    let set_immhi = set_bits 5 24 (imm / 2 ^ 2) set_immlo in set_bits 0 5 r.index set_immhi

unfoldable pub adr : Register → ℕ → ℕ
unfolding pc_rel_addressing
adr r imm = pc_rel_addressing r imm 0

unfoldable pub adrp : Register → ℕ → ℕ
unfolding pc_rel_addressing
adrp r imm = pc_rel_addressing r (imm / 2 ^ 12) 1

-- `LogicalShiftedRegister(sf, opc)`.
unfoldable pub logical_shifted_register : ℕ → ℕ → ℕ
unfolding opx101_instruction
logical_shifted_register sf opc =
    let set_sf = set_bits 31 32 sf (opx101_instruction 0b0 0b0 0b0000 0b000000) in
    set_bits 29 31 opc set_sf

-- `shift` is the code of a `ShiftType`.
unfoldable pub orr_shifted_register : Register → Register → Register → ℕ → ℕ → ℕ
unfolding logical_shifted_register is64
orr_shifted_register rd rn rm shift amount =
    let set_shift = set_bits 22 24 shift (logical_shifted_register (sf_of rd) 0b01) in
    let set_n = set_bits 21 22 0 set_shift in
    let set_rm = set_bits 16 21 rm.index set_n in
    let set_imm6 = set_bits 10 16 amount set_rm in
    let set_rn = set_bits 5 10 rn.index set_imm6 in set_bits 0 5 rd.index set_rn

-- The defaults are `ShiftType_LSL` and 0.
unfoldable pub mov_register : Register → Register → ℕ
unfolding orr_shifted_register none_like
mov_register rd rm = orr_shifted_register rd (none_like rd) rm 0b00 0
