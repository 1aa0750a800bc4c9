-- ===== src/Armv8/Encode/Laws/Registers.antt =====
-- Wide moves, the logical operation on registers, branches to a register, `NOP`.
use zeldar.Base.{ℕ, ◌+◌, ◌*◌, ◌%◌, ◌^◌, ◌<◌, ◌≡◌, arith}
use zeldar.Armv8.BitSet.{set_bits}
use zeldar.Armv8.BitSet.Laws.{set_bits_eq}
use zeldar.Armv8.Register.{Register, sf_of, is64}
use zeldar.Armv8.Encode.Arithmetic.{
  logical_shifted_register, move_wide_immediate, movk, movn, movz, orr_shifted_register,
  mov_register, none_like,
}
use zeldar.Armv8.Encode.Branches.{branch_register, ret}

sf_of-lt : (r : Register) → sf_of r < 2
unfolding is64
sf_of-lt r = ground arith

move_wide_immediate_lem :
    (r : Register) (opc hw imm : ℕ)
    → opc < 4
    → hw < 4
    → move_wide_immediate r opc hw imm
      ≡ sf_of r * 2 ^ 31
        + opc * 2 ^ 29
        + 0b100101 * 2 ^ 23
        + hw * 2 ^ 21
        + imm % 2 ^ 16 * 2 ^ 5
        + r.index % 2 ^ 5
unfolding move_wide_immediate
move_wide_immediate_lem r opc hw imm h h' = omega (arith, set_bits_eq, sf_of-lt r)

-- `MOVZ`, `MOVN` and `MOVK` hold their 16 bits unshifted and differ in their code only, and the
-- branches to a register hold the register.
move_and_branch_lem :
    (r : Register) (imm : ℕ)
    → let rest = 0b100101 * 2 ^ 23 + imm % 2 ^ 16 * 2 ^ 5 + r.index % 2 ^ 5 in
      (movz r imm ≡ sf_of r * 2 ^ 31 + 0b10 * 2 ^ 29 + rest)
      × (movn r imm ≡ sf_of r * 2 ^ 31 + rest)
      × (movk r imm ≡ sf_of r * 2 ^ 31 + 0b11 * 2 ^ 29 + rest)
      × (branch_register r ≡ 0xd61f_0000 + r.index % 2 ^ 5 * 2 ^ 5)
      × (ret r ≡ 0xd65f_0000 + r.index % 2 ^ 5 * 2 ^ 5)
unfolding movz movn movk branch_register ret
move_and_branch_lem r imm = (
  omega (arith, move_wide_immediate_lem r 0b10 0 imm),
  omega (arith, move_wide_immediate_lem r 0 0 imm),
  omega (arith, move_wide_immediate_lem r 0b11 0 imm),
  omega (arith, set_bits_eq),
  omega (arith, set_bits_eq),
)

logical_shifted_register_lem :
    (sf : ℕ) → sf < 2 → logical_shifted_register sf 0b01 ≡ sf * 2 ^ 31 + 0b101010 * 2 ^ 24
unfolding logical_shifted_register
logical_shifted_register_lem sf h = omega (arith, set_bits_eq)

orr_fields :
    (sf shift amount rd rn rm : ℕ)
    → sf < 2
    → set_bits 0 5 rd (
        set_bits 5 10 rn (
          set_bits 10 16 amount (
            set_bits 16 21 rm
              (set_bits 21 22 0 (set_bits 22 24 shift (sf * 2 ^ 31 + 0b101010 * 2 ^ 24))))))
      ≡ sf * 2 ^ 31
        + 0b101010 * 2 ^ 24
        + shift % 4 * 2 ^ 22
        + rm % 2 ^ 5 * 2 ^ 16
        + amount % 2 ^ 6 * 2 ^ 10
        + rn % 2 ^ 5 * 2 ^ 5
        + rd % 2 ^ 5
orr_fields sf shift amount rd rn rm h = omega (arith, set_bits_eq)

orr_shifted_register_lem :
    (rd rn rm : Register) (shift amount : ℕ)
    → orr_shifted_register rd rn rm shift amount
      ≡ sf_of rd * 2 ^ 31
        + 0b101010 * 2 ^ 24
        + shift % 4 * 2 ^ 22
        + rm.index % 2 ^ 5 * 2 ^ 16
        + amount % 2 ^ 6 * 2 ^ 10
        + rn.index % 2 ^ 5 * 2 ^ 5
        + rd.index % 2 ^ 5
unfolding orr_shifted_register
orr_shifted_register_lem rd rn rm shift amount =
    rw (logical_shifted_register_lem (sf_of rd) (sf_of-lt rd))
      (orr_fields (sf_of rd) shift amount rd.index rn.index rm.index (sf_of-lt rd))

-- `ORR` on registers is the architecture's word for its operands, and `MOV` is `ORR` with the zero
-- register, whose number is 31, and no shift.
orr-mov_lem :
    (rd rn rm : Register) (shift amount : ℕ)
    → (orr_shifted_register rd rn rm shift amount
        ≡ sf_of rd * 2 ^ 31
          + 0b101010 * 2 ^ 24
          + shift % 4 * 2 ^ 22
          + rm.index % 2 ^ 5 * 2 ^ 16
          + amount % 2 ^ 6 * 2 ^ 10
          + rn.index % 2 ^ 5 * 2 ^ 5
          + rd.index % 2 ^ 5)
      × (mov_register rd rm
          ≡ sf_of rd * 2 ^ 31
            + 0b101010 * 2 ^ 24
            + rm.index % 2 ^ 5 * 2 ^ 16
            + 31 * 2 ^ 5
            + rd.index % 2 ^ 5)
unfolding mov_register none_like
orr-mov_lem rd rn rm shift amount = (
  orr_shifted_register_lem rd rn rm shift amount,
  ground (arith, orr_shifted_register_lem rd (none_like rd) rm 0 0),
)
