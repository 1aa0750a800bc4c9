-- ===== src/Armv8/Tests.antt =====
-- The `static_assert`s of the source at each encoder, and the theorems at concrete operands.
use zeldar.Base.{ℕ, ◌-◌, ◌^◌, ◌≡◌, refl, inl, inr, arith, add64}
use zeldar.Armv8.BitSet.{set_bits}
use zeldar.Armv8.Isa.{signed, branch_target}
use zeldar.Armv8.Register.{RegisterKind, Register, register, lr, sp}
use zeldar.Armv8.Encode.Arithmetic.{
  add_immediate, adds_immediate, sub_immediate, subs_immediate, cmn_immediate, cmp_immediate, adr,
  adrp, orr_shifted_register, mov_register, movz,
}
use zeldar.Armv8.Encode.Branches.{nop, branch, branch_link, branch_register, ret}
use zeldar.Armv8.Encode.LoadStore.{
  ldr_register_immediate, str_register_immediate, ldur_unscaled_immediate, stur_unscaled_immediate,
  ldr_register_offset, str_register_offset, ExtendType,
}
use zeldar.Armv8.Encode.Laws.Immediate.{IsAddSub, add_subtract-IsAddSub, branch-branch_target}

abbrev x_ : ℕ → Register
x_ i = register RegisterKind.x i

abbrev w_ : ℕ → Register
w_ i = register RegisterKind.w i

add_sub_tests :
    (add_immediate (x_ 0) (x_ 1) 12 ≡ 0x91003020)
    × (add_immediate (w_ 6) (w_ 7) 0x57000 ≡ 0x11415CE6)
    × (adds_immediate (x_ 4) (x_ 5) 0x1000 ≡ 0xB14004A4)
    × (sub_immediate (w_ 6) (w_ 7) 0x57000 ≡ 0x51415CE6)
    × (subs_immediate (x_ 2) (x_ 3) 46 ≡ 0xF100B862)
    × (cmn_immediate (w_ 1) 32 ≡ 0x3100803F)
    × (cmp_immediate (x_ 3) 0x54000 ≡ 0xF141507F)
unfolding add_immediate adds_immediate sub_immediate subs_immediate cmn_immediate cmp_immediate
    set_bits
add_sub_tests = (refl, refl, refl, refl, refl, refl, refl)

address_tests :
    (adr (x_ 2) 0x69669 ≡ 0x3034B342)
    × (adrp (x_ 2) 0x6969000 ≡ 0xB0034B42)
    × (branch 0x4440 ≡ 0x14001110)
    × (branch_link 0x6900 ≡ 0x94001A40)
    × (nop ≡ 0xD503201F)
    × (ret (x_ 30) ≡ 0xD65F03C0)
    × (branch_register (x_ 3) ≡ 0xD61F0060)
unfolding adr adrp branch branch_link nop ret branch_register set_bits
address_tests = (refl, refl, refl, refl, refl, refl, refl)

register_tests :
    (orr_shifted_register (x_ 9) (x_ 10) (x_ 11) 0b11 8 ≡ 0xAACB2149)
    × (mov_register (x_ 6) (x_ 7) ≡ 0xAA0703E6)
    × (movz (x_ 0) 1 ≡ 0xD2800020)
unfolding orr_shifted_register mov_register movz set_bits
register_tests = (refl, refl, refl)

load_store_tests :
    (stur_unscaled_immediate (w_ 18) (x_ 19) (2 ^ 16 - 52) ≡ 0xB81CC272)
    × (ldur_unscaled_immediate lr sp (2 ^ 16 - 5) ≡ 0xF85FB3FE)
    × (ldr_register_immediate (w_ 24) (x_ 25) 95 ≡ 0xB9417F38)
    × (str_register_immediate (x_ 14) (x_ 15) 4 ≡ 0xF90011EE)
    × (ldr_register_offset (x_ 6) (x_ 7) (w_ 8) ExtendType.uxtw 3 ≡ 0xF86858E6)
    × (str_register_offset (x_ 3) (x_ 4) (x_ 5) ExtendType.sxtx 3 ≡ 0xF825F883)
unfolding stur_unscaled_immediate ldur_unscaled_immediate ldr_register_immediate
    str_register_immediate ldr_register_offset str_register_offset set_bits
load_store_tests = (refl, refl, refl, refl, refl, refl)

add_subtract-IsAddSub_example :
    IsAddSub 0 0 (w_ 6) (w_ 7) 0x57000 (add_immediate (w_ 6) (w_ 7) 0x57000)
    × IsAddSub 0 1 (w_ 6) (w_ 7) 0x57000 (adds_immediate (w_ 6) (w_ 7) 0x57000)
    × IsAddSub 1 0 (w_ 6) (w_ 7) 0x57000 (sub_immediate (w_ 6) (w_ 7) 0x57000)
    × IsAddSub 1 1 (w_ 6) (w_ 7) 0x57000 (subs_immediate (w_ 6) (w_ 7) 0x57000)
add_subtract-IsAddSub_example =
    add_subtract-IsAddSub (w_ 6) (w_ 7) 0x57000 (inr (omega arith, omega arith))

branch-branch_target_example :
    (branch_target 0x1000 (branch 0x4440) ≡ add64 0x1000 (signed 32 0x4440))
    × (branch_target 0x1000 (branch_link 0x4440) ≡ add64 0x1000 (signed 32 0x4440))
branch-branch_target_example = branch-branch_target 0x1000 0x4440 refl (inl (omega arith))
