-- ===== src/Hook/CondWords.antt =====
-- The words that `__fix_cond_comp_test_branch` of src/lib/hook/nx64/hook_impl.cpp puts together, and
-- where they continue.
use zeldar.Base.{
  ℕ, ◌+◌, ◌-◌, ◌*◌, ◌/◌, ◌%◌, ◌^◌, ◌<◌, ◌≡◌, ◌⊎◌, refl, ap, ◌∙◌, arith, Bool, true, false, some, [],
  ◌∷◌, bit_and, bit_or, leb, ◌==◌, if◌then◌else◌, add64, sub64, asr64, llabs, not32, u32,
}
use zeldar.Base.Masks.{mask_low, mask_field, mask_gap, bit_or_high}
use zeldar.Base.BitLaws.{bit_and_split, bit_or_split, zero-bit_or}
use zeldar.Armv8.Isa.{field, target14, target19}
use zeldar.Hook.Context.{words_of}
use zeldar.Hook.Fix.{cond_lmask}
use zeldar.Hook.Exec.{leaves, cond_exits}
use zeldar.Hook.Jumps.{IsCode, leaves-literal}

-- The bits of the offset from one word, and the others from another.
pub merged :
    (b ins : ℕ)
    → ins < 2 ^ 32
    → bit_or (bit_and b 0x00ffffe0) (bit_and ins 0xff00001f)
      ≡ field 24 8 ins * 2 ^ 24 + field 5 19 b * 2 ^ 5 + field 0 5 ins
merged b ins h =
    let keep : bit_and ins 0xff00001f ≡ ins / 2 ^ 24 * 2 ^ 19 * 2 ^ 5 + ins % 2 ^ 5 =
      mask_gap 5 19 8 ins (omega arith) ∙ omega arith in
    let offset : bit_and b 0x00ffffe0 ≡ b / 2 ^ 5 % 2 ^ 19 * 2 ^ 5 + 0 =
      mask_field 5 19 b ∙ omega arith in
    rw (keep, offset)
      (bit_or_split 5 (b / 2 ^ 5 % 2 ^ 19) 0 (ins / 2 ^ 24 * 2 ^ 19) (ins % 2 ^ 5) (omega arith)
          (omega arith)
        ∙ omega (
          arith,
          bit_or_high 19 (ins / 2 ^ 24) (b / 2 ^ 5 % 2 ^ 19) (omega arith),
          zero-bit_or (ins % 2 ^ 5),
        ))

merged_bit :
    (b ins : ℕ)
    → ins < 2 ^ 32
    → bit_or (bit_and b 0x0007ffe0) (bit_and ins 0xfff8001f)
      ≡ field 19 13 ins * 2 ^ 19 + field 5 14 b * 2 ^ 5 + field 0 5 ins
merged_bit b ins h =
    let keep : bit_and ins 0xfff8001f ≡ ins / 2 ^ 19 * 2 ^ 14 * 2 ^ 5 + ins % 2 ^ 5 =
      mask_gap 5 14 13 ins (omega arith) ∙ omega arith in
    let offset : bit_and b 0x0007ffe0 ≡ b / 2 ^ 5 % 2 ^ 14 * 2 ^ 5 + 0 =
      mask_field 5 14 b ∙ omega arith in
    rw (keep, offset)
      (bit_or_split 5 (b / 2 ^ 5 % 2 ^ 14) 0 (ins / 2 ^ 19 * 2 ^ 14) (ins % 2 ^ 5) (omega arith)
          (omega arith)
        ∙ omega (
          arith,
          bit_or_high 14 (ins / 2 ^ 19) (b / 2 ^ 5 % 2 ^ 14) (omega arith),
          zero-bit_or (ins % 2 ^ 5),
        ))

-- `B.cond`, `CBZ` and `CBNZ`.
unfoldable pub IsCondition : ℕ → Type 0
IsCondition ins =
    ((field 24 8 ins ≡ 0x54) × (field 4 1 ins ≡ 0))
    ⊎ ((field 24 7 ins ≡ 0x34) ⊎ (field 24 7 ins ≡ 0x35))

condition_mask :
    (ins : ℕ)
    → ins < 2 ^ 32
    → bit_and ins 0xff000010 ≡ field 24 8 ins * 2 ^ 24 + field 4 1 ins * 2 ^ 4
condition_mask ins h =
    let parts : ins ≡ ins / 2 ^ 24 * 2 ^ 24 + ins % 2 ^ 24 = omega arith in
    ap (λ n. bit_and n 0xff000010) parts
    ∙ bit_and_split 24 (ins / 2 ^ 24) (ins % 2 ^ 24) 0xff 0x10 (omega arith) (omega arith)
    ∙ omega (arith, mask_low 8 (ins / 2 ^ 24), mask_field 4 1 (ins % 2 ^ 24))

pub cond_lmask-IsCondition :
    (load : ℕ → ℕ) (ins : ℕ)
    → ins < 2 ^ 32
    → IsCondition ins
    → cond_lmask load ins ≡ some 0xff00001f
unfolding cond_lmask IsCondition
cond_lmask-IsCondition load ins h kind = ground (arith, condition_mask ins h, mask_field 24 7 ins)

-- `TBZ` and `TBNZ`.
unfoldable pub IsBitTest : ℕ → Type 0
IsBitTest ins = (field 24 7 ins ≡ 0x36) ⊎ (field 24 7 ins ≡ 0x37)

pub cond_lmask-IsBitTest :
    (load : ℕ → ℕ) (ins : ℕ) → ins < 2 ^ 32 → IsBitTest ins → cond_lmask load ins ≡ some 0xfff8001f
unfolding cond_lmask IsBitTest
cond_lmask-IsBitTest load ins h kind = ground (arith, condition_mask ins h, mask_field 24 7 ins)

-- The word of an instruction with other bits in its offset.
abbrev pub with_offset : (lmask ins b : ℕ) → ℕ
with_offset lmask ins b = bit_or (bit_and b (not32 lmask)) (bit_and ins lmask)

-- What the rewriting needs of a kind of conditional branch, whose test stands above `low` and in the
-- five lowest bits: a word with another offset keeps the test, is no `NOP`, and goes where the offset
-- says.
pub record IsForm (lmask low : ℕ) (goes : ℕ → ℕ → ℕ) (ins : ℕ) : Type 0 where
  pub top : (b : ℕ) → field low (32 - low) (with_offset lmask ins b) ≡ field low (32 - low) ins
  pub bottom : (b : ℕ) → field 0 5 (with_offset lmask ins b) ≡ field 0 5 ins
  pub no_nop : (b : ℕ) → (with_offset lmask ins b == 0xd503201f) ≡ false
  pub skips : (at : ℕ) → goes at (with_offset lmask ins (2 * 2 ^ 5)) ≡ add64 at 8
  pub reaches :
      (at target : ℕ)
      → IsCode at
      → IsCode target
      → leb (not32 lmask / 2 ^ 6) (llabs (asr64 (sub64 target at) 2)) ≡ false
      → goes at (with_offset lmask ins (u32 (asr64 (sub64 target at) 2 * 2 ^ 5))) ≡ target

pub condition-IsForm :
    (ins : ℕ) → ins < 2 ^ 32 → IsCondition ins → IsForm 0xff00001f 24 target19 ins
unfolding IsCondition
condition-IsForm ins h kind = record {
  top = λ b. omega (arith, merged b ins h);
  bottom = λ b. omega (arith, merged b ins h);
  no_nop = λ b. ground (arith, merged b ins h);
  skips = λ at. ground (arith, merged (2 * 2 ^ 5) ins h);
  reaches = λ at target code code' near.
      ground (arith, merged (u32 (asr64 (sub64 target at) 2 * 2 ^ 5)) ins h);
}

pub bit_test-IsForm : (ins : ℕ) → ins < 2 ^ 32 → IsBitTest ins → IsForm 0xfff8001f 19 target14 ins
unfolding IsBitTest
bit_test-IsForm ins h kind = record {
  top = λ b. omega (arith, merged_bit b ins h);
  bottom = λ b. omega (arith, merged_bit b ins h);
  no_nop = λ b. ground (arith, merged_bit b ins h);
  skips = λ at. ground (arith, merged_bit (2 * 2 ^ 5) ins h);
  reaches = λ at target code code' near.
      ground (arith, merged_bit (u32 (asr64 (sub64 target at) 2 * 2 ^ 5)) ins h);
}

-- The far form behind its padding, with a word that branches over the one behind it.
pub far_exits :
    (goes : ℕ → ℕ → ℕ) (taken : Bool) (at target word : ℕ)
    → goes at word ≡ add64 at 8
    → (word == 0xd503201f) ≡ false
    → target < 2 ^ 64
    → add64 at 16 % 8 ≡ 0
    → cond_exits goes taken at (word ∷ 0x14000005 ∷ 0x58000051 ∷ 0xd61f0220 ∷ words_of target)
      ≡ some (if taken then target else add64 at 24)
unfolding cond_exits leaves
far_exits goes true at target word skip no_nop small aligned =
    let skips : (goes at word == add64 at 8) ≡ true = ground arith in
    let reach : add64 at 8 % 8 ≡ 0 = omega arith in
    rw (no_nop, skips) (unfold leaves in leaves-literal (add64 at 8) target reach)
far_exits goes false at target word skip no_nop small aligned = rw no_nop (ground arith)

-- One word within reach.
pub near_exits :
    (goes : ℕ → ℕ → ℕ) (taken : Bool) (at target word : ℕ)
    → goes at word ≡ target
    → cond_exits goes taken at (word ∷ []) ≡ some (if taken then target else add64 at 4)
unfolding cond_exits
near_exits goes true at target word e = ap some e
near_exits goes false at target word e = refl
