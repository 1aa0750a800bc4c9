-- ===== src/Armv8/Encode/Laws/Immediate.antt =====
-- Arithmetic with an immediate, addresses relative to the instruction, branches.
use zeldar.Base.{
  ℕ, Bool, ◌+◌, ◌-◌, ◌*◌, ◌/◌, ◌%◌, ◌^◌, ◌≤◌, ◌<◌, ◌≡◌, refl, ◌∙◌, ◌⊎◌, arith, nat_of,
  if◌then◌else◌, ◌==◌, add64,
}
use zeldar.Base.Masks.{mask_low}
use zeldar.Armv8.BitSet.Laws.{set_bits_eq}
use zeldar.Armv8.Register.{Register, sf_of, is64}
use zeldar.Armv8.Isa.{field, signed, branch_target, adr_address, adrp_address, add_sub_value}
use zeldar.Armv8.Encode.Arithmetic.{
  add_subtract_immediate, calc_sh, calc_imm, set_operands, add_immediate, adds_immediate,
  sub_immediate, subs_immediate, pc_rel_addressing, adr, adrp,
}
use zeldar.Armv8.Encode.Branches.{branch, branch_link}

nat_of-lt : (b : Bool) → nat_of b < 2
nat_of-lt b = ground arith

sf_of-lt : (r : Register) → sf_of r < 2
unfolding is64
sf_of-lt r = ground arith

add_subtract_immediate_lem :
    (sf op s : ℕ)
    → sf < 2
    → op < 2
    → s < 2
    → add_subtract_immediate sf op s ≡ sf * 2 ^ 31 + op * 2 ^ 30 + s * 2 ^ 29 + 0b10001 * 2 ^ 24
unfolding add_subtract_immediate
add_subtract_immediate_lem sf op s h h' h'' = omega (arith, set_bits_eq)

-- An immediate that the instructions can hold: 12 bits, or 12 bits shifted up by 12.
abbrev pub IsEncodable : ℕ → Type 0
IsEncodable imm = (imm < 2 ^ 12) ⊎ ((imm % 2 ^ 12 ≡ 0) × (imm < 2 ^ 24))

-- The word is an `ADD`/`SUB` (immediate) with these operands.
pub record IsAddSub (op s : ℕ) (rd rn : Register) (imm word : ℕ) : Type 0 where
  pub word_lt : word < 2 ^ 32
  pub class_is : field 23 6 word ≡ 0b100010
  pub sf_is : field 31 1 word ≡ sf_of rd
  pub op_is : field 30 1 word ≡ op
  pub s_is : field 29 1 word ≡ s
  pub imm_is : add_sub_value word ≡ imm
  pub rn_is : field 5 5 word ≡ rn.index % 2 ^ 5
  pub rd_is : field 0 5 word ≡ rd.index % 2 ^ 5

set_operands_lem :
    (rd rn : Register) (imm top : ℕ)
    → top < 2 ^ 8
    → set_operands rd rn imm (top * 2 ^ 24)
      ≡ top * 2 ^ 24
        + nat_of (calc_sh imm) * 2 ^ 22
        + calc_imm imm % 2 ^ 12 * 2 ^ 10
        + rn.index % 2 ^ 5 * 2 ^ 5
        + rd.index % 2 ^ 5
unfolding set_operands
set_operands_lem rd rn imm top h = omega (arith, set_bits_eq, nat_of-lt (calc_sh imm))

-- The pair of fields that the constructor computes stands for the immediate.
calc_imm_lem :
    (imm : ℕ)
    → IsEncodable imm
    → (if nat_of (calc_sh imm) == 1 then calc_imm imm % 2 ^ 12 * 2 ^ 12 else calc_imm imm % 2 ^ 12)
      ≡ imm
unfolding calc_imm
calc_imm_lem imm h = ground (arith, mask_low 12 imm)

IsAddSub-of :
    (op s : ℕ) (rd rn : Register) (imm word : ℕ)
    → op < 2
    → s < 2
    → IsEncodable imm
    → word ≡ set_operands rd rn imm (add_subtract_immediate (sf_of rd) op s)
    → IsAddSub op s rd rn imm word
IsAddSub-of op s rd rn imm word hop hs enc e =
    let top = sf_of rd * 2 ^ 7 + op * 2 ^ 6 + s * 2 ^ 5 + 0b10001 in
    let base : add_subtract_immediate (sf_of rd) op s ≡ top * 2 ^ 24 =
      add_subtract_immediate_lem (sf_of rd) op s (sf_of-lt rd) hop hs ∙ omega arith in
    let whole = set_operands_lem rd rn imm top (omega (arith, sf_of-lt rd)) in
    let value : word
        ≡ top * 2 ^ 24
          + nat_of (calc_sh imm) * 2 ^ 22
          + calc_imm imm % 2 ^ 12 * 2 ^ 10
          + rn.index % 2 ^ 5 * 2 ^ 5
          + rd.index % 2 ^ 5 =
      e ∙ rw base whole in
    let sh_lt = nat_of-lt (calc_sh imm) in
    let sf_lt = sf_of-lt rd in
    let sh : field 22 1 word ≡ nat_of (calc_sh imm) = omega arith in
    let imm12 : field 10 12 word ≡ calc_imm imm % 2 ^ 12 = omega arith in
    record {
      word_lt = omega arith;
      class_is = omega arith;
      sf_is = omega arith;
      op_is = omega arith;
      s_is = omega arith;
      imm_is = rw (sh, imm12) (calc_imm_lem imm enc);
      rn_is = omega arith;
      rd_is = omega arith;
    }

-- Each of the four constructors builds its own instruction: class, `sf`, `op` and `S` as the
-- architecture numbers them, the two registers, and an immediate that reads back as the one given,
-- for every immediate that the instructions can hold.
pub add_subtract-IsAddSub :
    (rd rn : Register) (imm : ℕ)
    → IsEncodable imm
    → IsAddSub 0 0 rd rn imm (add_immediate rd rn imm)
      × IsAddSub 0 1 rd rn imm (adds_immediate rd rn imm)
      × IsAddSub 1 0 rd rn imm (sub_immediate rd rn imm)
      × IsAddSub 1 1 rd rn imm (subs_immediate rd rn imm)
add_subtract-IsAddSub rd rn imm enc = (
  IsAddSub-of 0 0 rd rn imm _ (omega arith) (omega arith) enc (unfold add_immediate in refl),
  IsAddSub-of 0 1 rd rn imm _ (omega arith) (omega arith) enc (unfold adds_immediate in refl),
  IsAddSub-of 1 0 rd rn imm _ (omega arith) (omega arith) enc (unfold sub_immediate in refl),
  IsAddSub-of 1 1 rd rn imm _ (omega arith) (omega arith) enc (unfold subs_immediate in refl),
)

pub branch_lem : (a : ℕ) → branch a ≡ 5 * 2 ^ 26 + a / 4 % 2 ^ 26
unfolding branch
branch_lem a = omega (arith, set_bits_eq)

pub branch_link_lem : (a : ℕ) → branch_link a ≡ 37 * 2 ^ 26 + a / 4 % 2 ^ 26
unfolding branch_link
branch_link_lem a = omega (arith, set_bits_eq)

pc_rel_lem :
    (r : Register) (imm op : ℕ)
    → op < 2
    → pc_rel_addressing r imm op
      ≡ op * 2 ^ 31 + imm % 4 * 2 ^ 29 + 2 ^ 28 + imm / 4 % 2 ^ 19 * 2 ^ 5 + r.index % 2 ^ 5
unfolding pc_rel_addressing
pc_rel_lem r imm op h = omega (arith, set_bits_eq)

-- The offsets of a 32-bit `uint` that stand for signed numbers of `count` bits.
abbrev pub InRange : ℕ → ℕ → Type 0
InRange count offset =
    (offset < 2 ^ (count - 1)) ⊎ ((2 ^ 32 - 2 ^ (count - 1) ≤ offset) × (offset < 2 ^ 32))

-- `B` and `BL` go to the given byte offset from the instruction, forwards and, given as a `uint`
-- that wraps, backwards, for every multiple of 4 in the signed 28 bits of the instructions.
pub branch-branch_target :
    (pc offset : ℕ)
    → offset % 4 ≡ 0
    → InRange 28 offset
    → (branch_target pc (branch offset) ≡ add64 pc (signed 32 offset))
      × (branch_target pc (branch_link offset) ≡ add64 pc (signed 32 offset))
branch-branch_target pc offset h range =
    (ground (arith, branch_lem offset), ground (arith, branch_link_lem offset))

-- `ADR` gives the address at the offset, for every offset in its signed 21 bits.
adr-adr_address :
    (r : Register) (pc offset : ℕ)
    → InRange 21 offset
    → adr_address pc (adr r offset) ≡ add64 pc (signed 32 offset)
unfolding adr
adr-adr_address r pc offset range = ground (arith, pc_rel_lem r offset 0)

-- `ADRP` gives the page at the offset from the page of the instruction, the low 12 bits of the
-- offset dropped, for every offset below 4 GiB forwards.
adrp-adrp_address :
    (r : Register) (pc offset : ℕ)
    → offset < 2 ^ 32
    → adrp_address pc (adrp r offset) ≡ add64 (pc / 2 ^ 12 * 2 ^ 12) (offset / 2 ^ 12 * 2 ^ 12)
unfolding adrp
adrp-adrp_address r pc offset h = ground (arith, pc_rel_lem r (offset / 2 ^ 12) 1)
