-- ===== src/Hook/Size/Bound.antt =====
-- What `__fix_instructions` of src/lib/hook/nx64/hook_impl.cpp writes fits the trampoline.
use zeldar.Base.{
  ℕ, zero, suc, ◌+◌, ◌*◌, ◌%◌, ◌≤◌, ◌≡◌, refl, ap, ◌∙◌, false, List, [], ◌∷◌, arith, Option, none,
  some, if◌then◌else◌, length, ok, ltb,
}
use zeldar.Hook.Context.{
  max_instructions, trampoline_size, aarch64_nop, State, emit, set_current, current_index,
  process_fix_map, words_of,
}
use zeldar.Hook.Fix.{misaligned, fix_branch_imm, fix_cond_comp_test_branch}
use zeldar.Hook.Fix.Literal.{fix_loadlit}
use zeldar.Hook.Fix.Address.{fix_pcreladdr}
use zeldar.Hook.Fix.Loop.{
  or_else, jump_back, start_state, copy_instruction, fix_instruction, fix_loop, fix_instructions,
}
use zeldar.Hook.Size.{
  Grows, Grows-trans, Grows-weaken, Grows-if, Grows-refl, emit-Grows, emit_after-Grows,
  set_current-Grows, process_fix_map-Grows, GrowsIfTaken,
}
use zeldar.Hook.Size.Fixes.{fix_branch_imm-Grows, fix_cond-GrowsIfTaken, fix_pcreladdr-Grows}
use zeldar.Hook.Size.Padding.{fix_loadlit-Grows}

or_else-GrowsIfTaken :
    (s : State) (a b : Option State)
    → GrowsIfTaken s a
    → GrowsIfTaken s b
    → GrowsIfTaken s (or_else a b)
or_else-GrowsIfTaken s none b h h' = h'
or_else-GrowsIfTaken s (some t) b h h' = h

taken-Grows :
    (s t : State) (a : Option State)
    → GrowsIfTaken s a
    → Grows 9 s t
    → Grows 9 s (elim a [ some s' ↦ s' | none ↦ t ])
taken-Grows s t none h h' = h'
taken-Grows s t (some s') h h' = h

out_of_jump_back-Grows : (s : State) → Grows 5 s (jump_back s)
unfolding jump_back
out_of_jump_back-Grows s =
    let t = if misaligned 2 s then emit (aarch64_nop ∷ []) s else s in
    let back = 0x58000051 ∷ 0xd61f0220 ∷ words_of s.inp in
    Grows-if 5 s (emit back t) _ _
      (emit_after-Grows 1 5 back s t (omega arith) (
        Grows-if 1 s (emit (aarch64_nop ∷ []) s) s (misaligned 2 s)
          (emit-Grows (aarch64_nop ∷ []) s) (Grows-refl 1 s)))
      (emit_after-Grows 0 5 (_ ∷ []) s s (omega arith) (Grows-refl 0 s))

module _ (load : ℕ → ℕ) where
  copy_instruction-Grows : (s : State) → Grows 9 s (copy_instruction load s)
  unfolding copy_instruction
  copy_instruction-Grows s =
      let idx = current_index s in
      let s0 = set_current idx s in
      let s1 = process_fix_map idx s0 in
      emit_after-Grows 0 9 (load s.inp ∷ []) s s1 (omega arith)
        (Grows-trans 0 0 s s0 s1 (set_current-Grows idx s) (process_fix_map-Grows idx s0))

  -- Whatever the instruction, one round writes at most nine words.
  fix_instruction-Grows : (s : State) → s.out_base % 4 ≡ 0 → Grows 9 s (fix_instruction load s)
  unfolding fix_instruction
  fix_instruction-Grows s base =
      taken-Grows s (copy_instruction load s) _
        (or_else-GrowsIfTaken s (fix_branch_imm load s) _ (fix_branch_imm-Grows load s) (
          or_else-GrowsIfTaken s (fix_cond_comp_test_branch load s) _ (fix_cond-GrowsIfTaken load s)
            (or_else-GrowsIfTaken s (fix_loadlit load s) (fix_pcreladdr load s)
              (fix_loadlit-Grows load s base) (fix_pcreladdr-Grows load s))))
        (copy_instruction-Grows s)

  fix_loop-Grows :
      (count : ℕ) (s : State) → s.out_base % 4 ≡ 0 → Grows (count * 9) s (fix_loop load count s)
  unfolding fix_loop
  fix_loop-Grows zero s base = Grows-refl 0 s
  fix_loop-Grows (suc count) s base =
      let t = fix_instruction load s in
      let h = fix_instruction-Grows s base in
      Grows-weaken (9 + count * 9) (suc count * 9) s (fix_loop load count t) (omega arith) (
        Grows-trans 9 (count * 9) s t (fix_loop load count t) h
          (fix_loop-Grows count t (ap (λ b. b % 4) h.1 ∙ base)))

  -- For at most five instructions, whatever they are, and a trampoline at a multiple of 4, the
  -- rewriting gives a result, and its words, the jump back among them, fit the trampoline's fifty.
  pub fix_instructions-trampoline_size :
      (inprx count outrwp outrxp : ℕ)
      → count ≤ max_instructions
      → outrxp % 4 ≡ 0
      → (words : List ℕ) × (fix_instructions load inprx count outrwp outrxp ≡ ok words)
        × (length words ≤ trampoline_size)
  unfolding fix_instructions
  fix_instructions-trampoline_size inprx count outrwp outrxp le base =
      let s = start_state inprx count outrxp outrwp in
      let t = fix_loop load count s in
      let bound =
        Grows-trans (count * 9) 5 s t (jump_back t) (fix_loop-Grows count s base)
          (out_of_jump_back-Grows t) in
      let few : ltb max_instructions count ≡ false = ground arith in
      ((jump_back t).out, rw few refl, omega (arith, bound.0))
