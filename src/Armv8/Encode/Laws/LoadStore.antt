-- ===== src/Armv8/Encode/Laws/LoadStore.antt =====
-- Loads and stores: the words as sums of their fields.
use zeldar.Base.{ℕ, Bool, ◌==◌, ◌+◌, ◌*◌, ◌%◌, ◌^◌, ◌<◌, ◌≡◌, refl, ◌∙◌, arith, nat_of}
use zeldar.Armv8.BitSet.Laws.{set_bits_eq}
use zeldar.Armv8.Register.{Register, sf_of, is64}
use zeldar.Armv8.BitSet.{set_bits}
use zeldar.Armv8.Encode.{opx1x0_instruction}
use zeldar.Armv8.Encode.LoadStore.{
  get_size, load_store_unsigned, ldr_register_immediate, str_register_immediate, sign_extend9,
  load_store_unscaled, ldur_unscaled_immediate, stur_unscaled_immediate, ExtendType, create_option,
  create_s, load_store_register_offset, set_offset_operands, ldr_register_offset,
  str_register_offset,
}

nat_of-lt : (b : Bool) → nat_of b < 2
nat_of-lt b = ground arith

sf_of-lt : (r : Register) → sf_of r < 2
unfolding is64
sf_of-lt r = ground arith

create_option-lt : (e : ExtendType) → create_option e < 8
unfolding create_option
create_option-lt e = ground arith

-- The part of each form that does not depend on the operands.
opx1x0_instruction_lem : opx1x0_instruction 0b0011 ≡ 0b111 * 2 ^ 27
unfolding opx1x0_instruction set_bits
opx1x0_instruction_lem = refl

unscaled_form :
    set_bits 10 12 0b00 (set_bits 16 22 0b000000 (set_bits 23 25 0b00 (opx1x0_instruction 0b0011)))
    ≡ 0b111 * 2 ^ 27
unfolding opx1x0_instruction set_bits
unscaled_form = refl

-- What the three addressing forms share: size, the class `0b111` of loads and stores of general
-- registers, the operation, and the two registers.
abbrev pub load_store_word : ℕ → Register → Register → ℕ → ℕ
load_store_word opc rn rt form =
    (0b10 + sf_of rt) * 2 ^ 30
    + 0b111 * 2 ^ 27
    + opc * 2 ^ 22
    + form
    + rn.index % 2 ^ 5 * 2 ^ 5
    + rt.index % 2 ^ 5

load_store_unsigned_lem :
    (opc imm12 : ℕ) (rn rt : Register)
    → opc < 4
    → load_store_unsigned (get_size rt) 0 opc imm12 rn rt
      ≡ load_store_word opc rn rt (2 ^ 24 + imm12 % 2 ^ 12 * 2 ^ 10)
unfolding load_store_unsigned
load_store_unsigned_lem opc imm12 rn rt h = omega (arith, set_bits_eq, sf_of-lt rt)

upper_fields :
    (size opc : ℕ)
    → size < 4
    → opc < 4
    → set_bits 22 24 opc (set_bits 26 27 0 (set_bits 30 32 size (0b111 * 2 ^ 27)))
      ≡ size * 2 ^ 30 + 0b111 * 2 ^ 27 + opc * 2 ^ 22
upper_fields size opc h h' = omega (arith, set_bits_eq)

unscaled_fields :
    (size opc imm9 rn rt : ℕ)
    → size < 4
    → opc < 4
    → set_bits 0 5 rt (
        set_bits 5 10 rn
          (set_bits 12 21 (sign_extend9 imm9) (size * 2 ^ 30 + 0b111 * 2 ^ 27 + opc * 2 ^ 22)))
      ≡ size * 2 ^ 30
        + 0b111 * 2 ^ 27
        + opc * 2 ^ 22
        + imm9 % 2 ^ 9 * 2 ^ 12
        + rn % 2 ^ 5 * 2 ^ 5
        + rt % 2 ^ 5
unfolding sign_extend9
unscaled_fields size opc imm9 rn rt h h' = omega (arith, set_bits_eq)

offset_upper :
    (size opc : ℕ)
    → size < 4
    → opc < 2
    → set_bits 26 27 0 (set_bits 22 24 opc (set_bits 30 32 size (0b111 * 2 ^ 27)))
      ≡ size * 2 ^ 30 + 0b111 * 2 ^ 27 + opc * 2 ^ 22
offset_upper size opc h h' = omega (arith, set_bits_eq)

offset_lower :
    (size opc : ℕ)
    → size < 4
    → opc < 2
    → set_bits 26 27 0 (
        set_bits 10 12 0b10 (
          set_bits 16 22 0b100000
            (set_bits 23 25 0b00 (size * 2 ^ 30 + 0b111 * 2 ^ 27 + opc * 2 ^ 22))))
      ≡ size * 2 ^ 30 + 0b111 * 2 ^ 27 + opc * 2 ^ 22 + 2 ^ 21 + 0b10 * 2 ^ 10
offset_lower size opc h h' = omega (arith, set_bits_eq)

offset_fields :
    (size opc : ℕ)
    → size < 4
    → opc < 2
    → set_bits 26 27 0 (
        set_bits 10 12 0b10 (
          set_bits 16 22 0b100000 (
            set_bits 23 25 0b00
              (set_bits 26 27 0 (set_bits 22 24 opc (set_bits 30 32 size (0b111 * 2 ^ 27)))))))
      ≡ size * 2 ^ 30 + 0b111 * 2 ^ 27 + opc * 2 ^ 22 + 2 ^ 21 + 0b10 * 2 ^ 10
offset_fields size opc h h' = rw (offset_upper size opc h h') (offset_lower size opc h h')

load_store_unscaled_lem :
    (opc imm9 : ℕ) (rn rt : Register)
    → opc < 4
    → load_store_unscaled (get_size rt) 0 opc imm9 rn rt
      ≡ load_store_word opc rn rt (imm9 % 2 ^ 9 * 2 ^ 12)
unfolding load_store_unscaled sign_extend9
load_store_unscaled_lem opc imm9 rn rt h =
    rw (unscaled_form, upper_fields (get_size rt) opc (omega (arith, sf_of-lt rt)) h)
      (unscaled_fields (get_size rt) opc imm9 rn.index rt.index (omega (arith, sf_of-lt rt)) h
        ∙ omega arith)

load_store_register_offset_lem :
    (opc : ℕ) (rt : Register)
    → opc < 2
    → load_store_register_offset (get_size rt) 0 opc
      ≡ (0b10 + sf_of rt) * 2 ^ 30 + 0b111 * 2 ^ 27 + opc * 2 ^ 22 + 2 ^ 21 + 0b10 * 2 ^ 10
unfolding load_store_register_offset
load_store_register_offset_lem opc rt h =
    rw opx1x0_instruction_lem (offset_fields (get_size rt) opc (omega (arith, sf_of-lt rt)) h)

set_offset_operands_lem :
    (opc amount : ℕ) (rt rn rm : Register) (extend : ExtendType)
    → opc < 2
    → set_offset_operands rt rn rm extend amount (load_store_register_offset (get_size rt) 0 opc)
      ≡ load_store_word opc rn rt (
          2 ^ 21
          + rm.index % 2 ^ 5 * 2 ^ 16
          + create_option extend * 2 ^ 13
          + nat_of (create_s rt amount) * 2 ^ 12
          + 0b10 * 2 ^ 10)
unfolding set_offset_operands
set_offset_operands_lem opc amount rt rn rm extend h = omega (
  arith,
  set_bits_eq,
  load_store_register_offset_lem opc rt h,
  sf_of-lt rt,
  create_option-lt extend,
  nat_of-lt (create_s rt amount),
)

-- The loads and stores at an immediate are the architecture's words for their operands: the scaled
-- form holds the low 12 bits of the immediate, and the unscaled one its low 9 bits, so that a
-- negative offset keeps its two's complement.
load_store_immediate_lem :
    (rt rn : Register) (imm : ℕ)
    → (ldr_register_immediate rt rn imm ≡ load_store_word 1 rn rt (2 ^ 24 + imm % 2 ^ 12 * 2 ^ 10))
      × (str_register_immediate rt rn imm
          ≡ load_store_word 0 rn rt (2 ^ 24 + imm % 2 ^ 12 * 2 ^ 10))
      × (ldur_unscaled_immediate rt rn imm ≡ load_store_word 1 rn rt (imm % 2 ^ 9 * 2 ^ 12))
      × (stur_unscaled_immediate rt rn imm ≡ load_store_word 0 rn rt (imm % 2 ^ 9 * 2 ^ 12))
unfolding ldr_register_immediate str_register_immediate ldur_unscaled_immediate
    stur_unscaled_immediate
load_store_immediate_lem rt rn imm = (
  load_store_unsigned_lem 1 imm rn rt (omega arith),
  load_store_unsigned_lem 0 imm rn rt (omega arith),
  load_store_unscaled_lem 1 imm rn rt (omega arith),
  load_store_unscaled_lem 0 imm rn rt (omega arith),
)

-- The loads and stores at a register offset are the architecture's words for their operands: the
-- extension's code, and the scaling bit, which is set exactly for a shift by the size of the data.
load_store_offset_lem :
    (rt rn rm : Register) (extend : ExtendType) (amount : ℕ)
    → let form =
        2 ^ 21
        + rm.index % 2 ^ 5 * 2 ^ 16
        + create_option extend * 2 ^ 13
        + nat_of (create_s rt amount) * 2 ^ 12
        + 0b10 * 2 ^ 10 in
      (ldr_register_offset rt rn rm extend amount ≡ load_store_word 1 rn rt form)
      × (str_register_offset rt rn rm extend amount ≡ load_store_word 0 rn rt form)
      × (nat_of (create_s rt amount) ≡ nat_of (amount == 2 + sf_of rt))
unfolding ldr_register_offset str_register_offset
load_store_offset_lem rt rn rm extend amount = (
  set_offset_operands_lem 1 amount rt rn rm extend (omega arith),
  set_offset_operands_lem 0 amount rt rn rm extend (omega arith),
  unfold create_s in ground arith,
)
