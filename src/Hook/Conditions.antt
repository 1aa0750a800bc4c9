-- ===== src/Hook/Conditions.antt =====
-- `__fix_cond_comp_test_branch` of src/lib/hook/nx64/hook_impl.cpp keeps the meaning of a forward
-- branch on a condition or on a register.
use mathlib.Core.List.{append_assoc}
use zeldar.Base.{
  ℕ, ◌-◌, ◌*◌, ◌/◌, ◌%◌, ◌^◌, ◌<◌, ◌≡◌, ◌⊎◌, refl, ap, ◌∙◌, arith, Bool, false, not, ◌&&◌,
  Bool-cases, inl, inr, Option, some, List, [], ◌∷◌, ◌++◌, leb, if◌then◌else◌, add64, sub64, asr64,
  llabs, u32, not32, length,
}
use zeldar.Base.Masks.{mask_field}
use zeldar.Armv8.Isa.{field, target14, target19}
use zeldar.Hook.Context.{
  aarch64_nop, State, outprx, emit, words_of, set_current, current_index, is_in_fixing_range,
  finish,
}
use zeldar.Hook.Fix.{
  misaligned, cond_lmask, cond_absolute_addr, far_cond, near_cond, fix_cond,
  fix_cond_comp_test_branch,
}
use zeldar.Hook.Exec.{cond_exits}
use zeldar.Hook.Jumps.{IsCode}
use zeldar.Hook.Branches.{
  IsUnreferenced, out-finish, set_current-IsUnreferenced, set_current-range, finish-inp,
}
use zeldar.Hook.CondWords.{
  IsCondition, IsBitTest, IsForm, with_offset, condition-IsForm, bit_test-IsForm, far_exits,
  near_exits, cond_lmask-IsCondition, cond_lmask-IsBitTest,
}

-- The test of a word, above the bit `low` and in the five lowest bits, is that of the first word behind
-- any `NOP`.
unfoldable pub HasTest : (low ins : ℕ) → List ℕ → Type 0
HasTest low ins tail =
    (word : ℕ) × (rest : List ℕ) × ((tail ≡ word ∷ rest) ⊎ (tail ≡ aarch64_nop ∷ word ∷ rest))
    × (field low (32 - low) word ≡ field low (32 - low) ins)
    × (field 0 5 word ≡ field 0 5 ins)

-- One kind of conditional branch.
module _ (lmask low : ℕ) (goes : ℕ → ℕ → ℕ) (load : ℕ → ℕ) (s : State)
    (form : IsForm lmask low goes (load s.inp))
    (is_kind : cond_lmask load (load s.inp) ≡ some lmask)
    (forward : cond_absolute_addr load lmask s ≡ goes s.inp (load s.inp)) where
  abbrev own_word : ℕ → ℕ
  own_word b = with_offset lmask (load s.inp) b

  abbrev far_words : ℕ → List ℕ
  far_words target = own_word (2 * 2 ^ 5) ∷ 0x14000005 ∷ 0x58000051 ∷ 0xd61f0220 ∷ words_of target

  abbrev too_far : ℕ → Bool
  too_far target = leb (not32 lmask / 2 ^ 6) (llabs (asr64 (sub64 target (outprx s)) 2))

  -- Both forms, as the words that they add.
  abbrev cond_words : ℕ → List ℕ
  cond_words target =
      if too_far target
      then (if misaligned 4 s then aarch64_nop ∷ far_words target else far_words target)
      else own_word (u32 (asr64 (sub64 target (outprx s)) 2 * 2 ^ 5)) ∷ []

  cond_words-exits :
      (taken : Bool) (target : ℕ)
      → IsCode (outprx s)
      → IsCode target
      → cond_exits goes taken (outprx s) (cond_words target)
        ≡ some (if taken then target else add64 (outprx s) (4 * length (cond_words target)))
  unfolding cond_exits
  cond_words-exits taken target h h' =
      let no_nop = form.no_nop (2 * 2 ^ 5) in
      elim (Bool-cases (too_far target)) [
        | inl far ↦ elim (Bool-cases (misaligned 4 s)) [
          | inl odd ↦
              let at = add64 (outprx s) 4 in
              let aligned : add64 at 16 % 8 ≡ 0 = ground arith in
              let end_eq : add64 at 24 ≡ add64 (outprx s) 28 = omega arith in
              rw (far, odd)
                (far_exits goes taken at target (own_word (2 * 2 ^ 5)) (form.skips at) no_nop h'.0
                    aligned
                  ∙ rw end_eq refl)
          | inr even ↦
              let aligned : add64 (outprx s) 16 % 8 ≡ 0 = ground arith in
              rw (far, even)
                (far_exits goes taken (outprx s) target (own_word (2 * 2 ^ 5))
                  (form.skips (outprx s)) no_nop h'.0 aligned)
        ]
        | inr near ↦
            let b = u32 (asr64 (sub64 target (outprx s)) 2 * 2 ^ 5) in
            rw near (
              near_exits goes taken (outprx s) target (own_word b)
                (form.reaches (outprx s) target h h' near))
      ]

  cond_words-HasTest : (target : ℕ) → HasTest low (load s.inp) (cond_words target)
  unfolding HasTest
  cond_words-HasTest target =
      let (top, bottom) : (field low (32 - low) (own_word (2 * 2 ^ 5))
            ≡ field low (32 - low) (load s.inp))
          × (field 0 5 (own_word (2 * 2 ^ 5)) ≡ field 0 5 (load s.inp)) =
        (form.top (2 * 2 ^ 5), form.bottom (2 * 2 ^ 5)) in
      elim (Bool-cases (too_far target)) [
        | inl far ↦ elim (Bool-cases (misaligned 4 s)) [
          | inl odd ↦ rw (far, odd) (_, _, inr refl, top, bottom)
          | inr even ↦ rw (far, even) (_, _, inl refl, top, bottom)
        ]
        | inr near ↦
            let b = u32 (asr64 (sub64 target (outprx s)) 2 * 2 ^ 5) in
            rw near (_, _, inl refl, form.top b, form.bottom b)
      ]

  -- What the body of the function does, when the target is none of the rewritten instructions.
  abbrev cond_body : ℕ → ℕ → State
  cond_body idx a =
      let s1 = set_current idx s in
      if not (is_in_fixing_range s1.ctx a)
        && leb (not32 lmask / 2 ^ 6) (llabs (asr64 (sub64 a (outprx s1)) 2))
      then far_cond load lmask idx a s1
      else near_cond load lmask idx a (is_in_fixing_range s1.ctx a) s1

  cond_body_lem :
      (idx a : ℕ)
      → is_in_fixing_range (set_current idx s).ctx a ≡ false
      → IsUnreferenced idx s.ctx
      → ((cond_body idx a).out ≡ s.out ++ cond_words a)
        × IsUnreferenced idx (cond_body idx a).ctx
        × ((cond_body idx a).inp ≡ s.inp)
  unfolding far_cond near_cond emit set_current
  cond_body_lem idx a out free =
      let once = set_current-IsUnreferenced idx s free in
      elim (Bool-cases (too_far a)) [
        | inl far ↦ elim (Bool-cases (misaligned 4 s)) [
          | inl odd ↦
              rw (out, far, odd)
                (
                  append_assoc s.out (aarch64_nop ∷ []) (far_words a),
                  set_current-IsUnreferenced idx (set_current idx s) once,
                  refl,
                )
          | inr even ↦ rw (out, far, even) (refl, once, refl)
        ]
        | inr near ↦ rw (out, near) (refl, once, refl)
      ]

  fix_cond_runs :
      fix_cond_comp_test_branch load s
      ≡ some
          (finish (current_index s) (cond_body (current_index s) (cond_absolute_addr load lmask s)))
  unfolding fix_cond_comp_test_branch fix_cond
  fix_cond_runs =
      ap
        (λ m. elim m as (λ x. Option State) [
          | Option.none ↦ Option.none
          | some l ↦ some (fix_cond load l s)
        ])
        is_kind

  form-exits :
      (taken : Bool)
      → IsCode (outprx s)
      → IsCode (goes s.inp (load s.inp))
      → is_in_fixing_range s.ctx (goes s.inp (load s.inp)) ≡ false
      → IsUnreferenced (current_index s) s.ctx
      → (s' : State) × (tail : List ℕ) × (fix_cond_comp_test_branch load s ≡ some s')
        × (s'.out ≡ s.out ++ tail)
        × HasTest low (load s.inp) tail
        × (cond_exits goes taken (outprx s) tail
            ≡ some (if taken then goes s.inp (load s.inp) else add64 (outprx s) (4 * length tail)))
        × (s'.inp ≡ add64 s.inp 4)
  form-exits taken h h' range free =
      let idx = current_index s in
      let a = cond_absolute_addr load lmask s in
      let target = goes s.inp (load s.inp) in
      let inside = set_current-range idx a s ∙ ap (is_in_fixing_range s.ctx) forward ∙ range in
      let (out, free', inp) = cond_body_lem idx a inside free in
      let body = cond_body idx a in
      (
        finish idx body,
        cond_words target,
        fix_cond_runs,
        out-finish idx body free' ∙ out ∙ ap (λ t. s.out ++ cond_words t) forward,
        cond_words-HasTest target,
        cond_words-exits taken target h h',
        finish-inp idx body ∙ ap (λ i. add64 i 4) inp,
      )

module _ (load : ℕ → ℕ) (s : State) (small : load s.inp < 2 ^ 32) (taken : Bool)
    (at_code : IsCode s.inp) (out_code : IsCode (outprx s))
    (free : IsUnreferenced (current_index s) s.ctx) where
  -- A forward `B.cond`, `CBZ` or `CBNZ` whose target is not among the rewritten instructions, and that
  -- no earlier instruction refers to, is rewritten, near or far, to words with the same condition: when
  -- it holds they continue at the same target, and when it does not behind themselves. The next
  -- instruction is taken up.
  pub fix_cond_comp_test_branch-exits :
      IsCondition (load s.inp)
      → field 5 19 (load s.inp) < 2 ^ 18
      → is_in_fixing_range s.ctx (target19 s.inp (load s.inp)) ≡ false
      → (s' : State) × (tail : List ℕ) × (fix_cond_comp_test_branch load s ≡ some s')
        × (s'.out ≡ s.out ++ tail)
        × HasTest 24 (load s.inp) tail
        × (cond_exits target19 taken (outprx s) tail
            ≡ some
                (if taken then target19 s.inp (load s.inp) else add64 (outprx s) (4 * length tail)))
        × (s'.inp ≡ add64 s.inp 4)
  fix_cond_comp_test_branch-exits kind forward range =
      form-exits 0xff00001f 24 target19 load s (condition-IsForm (load s.inp) small kind)
        (cond_lmask-IsCondition load (load s.inp) small kind)
        (ground (arith, mask_field 5 19 (load s.inp))) taken out_code (ground arith) range free

  -- The same for a forward `TBZ` or `TBNZ`, whose offset has 14 bits and whose test has the number of a
  -- bit.
  pub fix_cond_comp_test_branch-bit_exits :
      IsBitTest (load s.inp)
      → field 5 14 (load s.inp) < 2 ^ 13
      → is_in_fixing_range s.ctx (target14 s.inp (load s.inp)) ≡ false
      → (s' : State) × (tail : List ℕ) × (fix_cond_comp_test_branch load s ≡ some s')
        × (s'.out ≡ s.out ++ tail)
        × HasTest 19 (load s.inp) tail
        × (cond_exits target14 taken (outprx s) tail
            ≡ some
                (if taken then target14 s.inp (load s.inp) else add64 (outprx s) (4 * length tail)))
        × (s'.inp ≡ add64 s.inp 4)
  fix_cond_comp_test_branch-bit_exits kind forward range =
      form-exits 0xfff8001f 19 target14 load s (bit_test-IsForm (load s.inp) small kind)
        (cond_lmask-IsBitTest load (load s.inp) small kind)
        (ground (arith, mask_field 5 14 (load s.inp))) taken out_code (ground arith) range free
