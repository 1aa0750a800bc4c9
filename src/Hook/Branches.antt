-- ===== src/Hook/Branches.antt =====
-- `__fix_branch_imm` keeps the meaning of `B` and `BL`.
use zeldar.Base.{
  ℕ, zero, suc, ◌*◌, ◌/◌, ◌^◌, ◌<◌, ◌≡◌, refl, ap, ◌∙◌, false, some, List, [], ◌∷◌, ◌++◌, bit_and,
  bit_or, arith, Bool-cases, inl, inr, leb, if◌then◌else◌, add64, sub64, asr64, llabs, length,
  get_or, set, replicate,
}
use zeldar.Base.Masks.{mask_field}
use zeldar.Armv8.Isa.{field, branch_target}
use zeldar.Hook.Context.{
  aarch64_nop, State, Context, InsnsInfo, free_insns, free_info, max_references, outprx, emit,
  dat_at, set_current, current_index, is_in_fixing_range, process_infos, process_fix_map, finish,
}
use zeldar.Hook.Fix.{
  misaligned, pad, far_b, far_bl, fix_branch, near_branch, fix_branch_imm, branch_absolute_addr,
}
use zeldar.Hook.Exec.{leaves, calls}
use zeldar.Hook.Jumps.{
  IsCode, far_call, out-far_b, out-far_bl, calls-far_call, calls-near, patch_words,
  patch_words-leaves, branch_absolute_addr_lem,
}
use zeldar.Hook.Install.{is_far, near_patch}

-- No reference waits for the instruction.
abbrev pub IsUnreferenced : ℕ → Context → Type 0
IsUnreferenced idx c = (dat_at c idx).fmap ≡ replicate max_references free_info

fmap-set :
    (xs : List InsnsInfo) (i o : ℕ)
    → (get_or
        (set xs i (record { ins = o; fmap = (get_or xs i free_insns).fmap }))
        i
        free_insns).fmap
      ≡ (get_or xs i free_insns).fmap
fmap-set [] i o = refl
fmap-set (x ∷ xs) zero o = refl
fmap-set (x ∷ xs) (suc i) o = fmap-set xs i o

-- Recording a place leaves the references that wait.
pub set_current-IsUnreferenced :
    (idx : ℕ) (s : State) → IsUnreferenced idx s.ctx → IsUnreferenced idx (set_current idx s).ctx
unfolding set_current dat_at
set_current-IsUnreferenced idx s h = fmap-set s.ctx.dat idx (outprx s) ∙ h

pad-IsUnreferenced :
    (idx : ℕ) (s : State) → IsUnreferenced idx s.ctx → IsUnreferenced idx (pad idx s).ctx
unfolding pad emit
pad-IsUnreferenced idx s h =
    set_current-IsUnreferenced idx (record s { out = s.out ++ aarch64_nop ∷ [] }) h

-- Then the end of the function writes nothing.
pub out-finish : (idx : ℕ) (s : State) → IsUnreferenced idx s.ctx → (finish idx s).out ≡ s.out
unfolding finish process_infos
out-finish idx s h = rw h

far_b-IsUnreferenced :
    (idx a : ℕ) (s : State) → IsUnreferenced idx s.ctx → IsUnreferenced idx (far_b idx a s).ctx
unfolding far_b emit
far_b-IsUnreferenced idx a s h = elim (Bool-cases (misaligned 2 s)) [
  | inl odd ↦ rw odd (pad-IsUnreferenced idx s h)
  | inr even ↦ rw even h
]

far_bl-IsUnreferenced :
    (idx a : ℕ) (s : State) → IsUnreferenced idx s.ctx → IsUnreferenced idx (far_bl idx a s).ctx
unfolding far_bl emit
far_bl-IsUnreferenced idx a s h = elim (Bool-cases (misaligned 2 s)) [
  | inl odd ↦ rw odd h
  | inr even ↦ rw even (pad-IsUnreferenced idx s h)
]

abbrev call_words : ℕ → ℕ → List ℕ
call_words at target =
    if is_far at target
    then far_call at target
    else bit_or 0x94000000 (bit_and (asr64 (sub64 target at) 2) 0x03ffffff) ∷ []

far_b-inp : (idx a : ℕ) (s : State) → (far_b idx a s).inp ≡ s.inp
unfolding far_b pad emit set_current
far_b-inp idx a s = elim (Bool-cases (misaligned 2 s)) [
  | inl odd ↦ rw odd refl
  | inr even ↦ rw even refl
]

far_bl-inp : (idx a : ℕ) (s : State) → (far_bl idx a s).inp ≡ s.inp
unfolding far_bl pad emit set_current
far_bl-inp idx a s = elim (Bool-cases (misaligned 2 s)) [
  | inl odd ↦ rw odd refl
  | inr even ↦ rw even refl
]

fix_branch_jump :
    (idx a : ℕ) (s : State)
    → is_in_fixing_range s.ctx a ≡ false
    → IsUnreferenced idx s.ctx
    → ((fix_branch 0x14000000 idx a s).out ≡ s.out ++ patch_words (outprx s) a)
      × IsUnreferenced idx (fix_branch 0x14000000 idx a s).ctx
      × ((fix_branch 0x14000000 idx a s).inp ≡ s.inp)
unfolding fix_branch near_branch far_b pad emit set_current is_far near_patch
fix_branch_jump idx a s out h =
    elim (Bool-cases (leb (0x03ffffff / 2) (llabs (asr64 (sub64 a (outprx s)) 2)))) [
      | inl far ↦
          rw out (rw far (out-far_b idx a s, far_b-IsUnreferenced idx a s h, far_b-inp idx a s))
      | inr near ↦ rw out (rw near (refl, h, refl))
    ]

fix_branch_call :
    (idx a : ℕ) (s : State)
    → is_in_fixing_range s.ctx a ≡ false
    → IsUnreferenced idx s.ctx
    → ((fix_branch 0x94000000 idx a s).out ≡ s.out ++ call_words (outprx s) a)
      × IsUnreferenced idx (fix_branch 0x94000000 idx a s).ctx
      × ((fix_branch 0x94000000 idx a s).inp ≡ s.inp)
unfolding fix_branch near_branch far_bl pad emit set_current is_far
fix_branch_call idx a s out h =
    elim (Bool-cases (leb (0x03ffffff / 2) (llabs (asr64 (sub64 a (outprx s)) 2)))) [
      | inl far ↦
          rw out (rw far (out-far_bl idx a s, far_bl-IsUnreferenced idx a s h, far_bl-inp idx a s))
      | inr near ↦ rw out (rw near (refl, h, refl))
    ]

call_words-calls :
    (at target : ℕ)
    → IsCode at
    → IsCode target
    → calls at (call_words at target)
      ≡ some (record { target = target; link = add64 at (4 * length (call_words at target)) })
unfolding is_far
call_words-calls at target h h' = elim (Bool-cases (is_far at target)) [
  | inl far ↦ rw far (calls-far_call at target h)
  | inr near ↦ rw near (calls-near at target h h' near)
]

pub set_current-range :
    (idx a : ℕ) (s : State)
    → is_in_fixing_range (set_current idx s).ctx a ≡ is_in_fixing_range s.ctx a
unfolding set_current is_in_fixing_range
set_current-range idx a s = refl

pub finish-inp : (idx : ℕ) (s : State) → (finish idx s).inp ≡ add64 s.inp 4
unfolding finish process_fix_map
finish-inp idx s = refl

module _ (load : ℕ → ℕ) (s : State) (word : load s.inp < 2 ^ 32) where
  pub opcode :
      (op : ℕ) → field 26 6 (load s.inp) ≡ op → bit_and (load s.inp) 0xfc000000 ≡ op * 2 ^ 26
  opcode op h = ground (arith, mask_field 26 6 (load s.inp))

  target_IsCode : IsCode s.inp → IsCode (branch_target s.inp (load s.inp))
  target_IsCode h = ground arith

  pub fix_branch_imm-b :
      bit_and (load s.inp) 0xfc000000 ≡ 0x14000000
      → fix_branch_imm load s
        ≡ some (
            finish (current_index s) (
              fix_branch 0x14000000
                (current_index s)
                (branch_absolute_addr load s)
                (set_current (current_index s) s)))
  unfolding fix_branch_imm
  fix_branch_imm-b h = rw h refl

  fix_branch_imm-bl :
      bit_and (load s.inp) 0xfc000000 ≡ 0x94000000
      → fix_branch_imm load s
        ≡ some (
            finish (current_index s) (
              fix_branch 0x94000000
                (current_index s)
                (branch_absolute_addr load s)
                (set_current (current_index s) s)))
  unfolding fix_branch_imm
  fix_branch_imm-bl h = rw h refl

  -- A `B` whose target is not among the rewritten instructions, and that no earlier instruction
  -- refers to, is rewritten to words that continue at the same target, near or far, and the next
  -- instruction is taken up.
  pub fix_branch_imm-leaves :
      field 26 6 (load s.inp) ≡ 5
      → IsCode s.inp
      → IsCode (outprx s)
      → is_in_fixing_range s.ctx (branch_target s.inp (load s.inp)) ≡ false
      → IsUnreferenced (current_index s) s.ctx
      → (s' : State) × (tail : List ℕ) × (fix_branch_imm load s ≡ some s')
        × (s'.out ≡ s.out ++ tail)
        × (leaves (outprx s) tail ≡ some (branch_target s.inp (load s.inp)))
        × (s'.inp ≡ add64 s.inp 4)
  unfolding set_current
  fix_branch_imm-leaves op h h' range free =
      let idx = current_index s in
      let a = branch_absolute_addr load s in
      let s1 = set_current idx s in
      let target = branch_target s.inp (load s.inp) in
      let goes = branch_absolute_addr_lem load s word in
      let inside = set_current-range idx a s ∙ ap (is_in_fixing_range s.ctx) goes ∙ range in
      let (out, free', inp) =
        fix_branch_jump idx a s1 inside (set_current-IsUnreferenced idx s free) in
      let body = fix_branch 0x14000000 idx a s1 in
      (
        finish idx body,
        patch_words (outprx s) target,
        fix_branch_imm-b (opcode 5 op),
        out-finish idx body free' ∙ out ∙ ap (λ t. s.out ++ patch_words (outprx s) t) goes,
        patch_words-leaves (outprx s) target h' (target_IsCode h),
        finish-inp idx body ∙ ap (λ i. add64 i 4) inp,
      )

  -- The same for a `BL`: the words call the same target, and link to the word behind them.
  pub fix_branch_imm-calls :
      field 26 6 (load s.inp) ≡ 37
      → IsCode s.inp
      → IsCode (outprx s)
      → is_in_fixing_range s.ctx (branch_target s.inp (load s.inp)) ≡ false
      → IsUnreferenced (current_index s) s.ctx
      → (s' : State) × (tail : List ℕ) × (fix_branch_imm load s ≡ some s')
        × (s'.out ≡ s.out ++ tail)
        × (calls (outprx s) tail
            ≡ some (record {
              target = branch_target s.inp (load s.inp);
              link = add64 (outprx s) (4 * length tail);
            }))
        × (s'.inp ≡ add64 s.inp 4)
  unfolding set_current
  fix_branch_imm-calls op h h' range free =
      let idx = current_index s in
      let a = branch_absolute_addr load s in
      let s1 = set_current idx s in
      let target = branch_target s.inp (load s.inp) in
      let goes = branch_absolute_addr_lem load s word in
      let inside = set_current-range idx a s ∙ ap (is_in_fixing_range s.ctx) goes ∙ range in
      let (out, free', inp) =
        fix_branch_call idx a s1 inside (set_current-IsUnreferenced idx s free) in
      let body = fix_branch 0x94000000 idx a s1 in
      (
        finish idx body,
        call_words (outprx s) target,
        fix_branch_imm-bl (opcode 37 op),
        out-finish idx body free' ∙ out ∙ ap (λ t. s.out ++ call_words (outprx s) t) goes,
        call_words-calls (outprx s) target h' (target_IsCode h),
        finish-inp idx body ∙ ap (λ i. add64 i 4) inp,
      )
