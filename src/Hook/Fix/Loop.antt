-- ===== src/Hook/Fix/Loop.antt =====
-- `__fix_instructions` of src/lib/hook/nx64/hook_impl.cpp.
use zeldar.Base.{
  ℕ, zero, suc, ◌+◌, ◌*◌, ◌/◌, ◌^◌, Option, none, some, List, [], ◌∷◌, bit_and, bit_or, ltb, leb,
  if◌then◌else◌, add64, sub64, asr64, llabs, replicate, Outcome, ok, aborted,
}
use zeldar.Hook.Context.{
  max_instructions, aarch64_nop, free_insns, Context, State, outprx, emit, current_index,
  set_current, process_fix_map, words_of,
}
use zeldar.Hook.Fix.{misaligned, fix_branch_imm, fix_cond_comp_test_branch}
use zeldar.Hook.Fix.Literal.{fix_loadlit}
use zeldar.Hook.Fix.Address.{fix_pcreladdr}

abbrev pub or_else {ℓ} : {A : Type ℓ} → Option A → Option A → Option A
or_else (some a) other = some a
or_else none other = other

-- `result::HookFixingTooManyInstructions`.
abbrev pub too_many_instructions : ℕ
too_many_instructions = 252 + 3 * 2 ^ 9

-- The jump back to the first instruction that was not rewritten.
unfoldable pub jump_back : State → State
unfolding emit
jump_back s =
    let callback = s.inp in
    let pc_offset = asr64 (sub64 callback (outprx s)) 2 in
    if leb (0x03ffffff / 2) (llabs pc_offset)
    then emit (0x58000051 ∷ 0xd61f0220 ∷ words_of callback)
        (if misaligned 2 s then emit (aarch64_nop ∷ []) s else s)
    else emit (bit_or 0x14000000 (bit_and pc_offset 0x03ffffff) ∷ []) s

abbrev pub start_state : ℕ → ℕ → ℕ → ℕ → State
start_state inprx count outrxp outrwp =
    let ctx : Context = record {
      basep = inprx;
      endp = add64 inprx (4 * count);
      dat = replicate max_instructions free_insns;
    } in
    record { inp = inprx; out_base = outrxp; rw_base = outrwp; out = []; ctx = ctx }

module _ (load : ℕ → ℕ) where
  -- An instruction without an offset from its place is copied.
  unfoldable pub copy_instruction : State → State
  unfolding current_index set_current process_fix_map emit
  copy_instruction s =
      let idx = current_index s in
      let s1 = process_fix_map idx (set_current idx s) in
      let s2 = emit (load s.inp ∷ []) s1 in record s2 { inp = add64 s.inp 4 }

  -- One round of the loop.
  unfoldable pub fix_instruction : State → State
  unfolding fix_branch_imm fix_cond_comp_test_branch fix_loadlit fix_pcreladdr copy_instruction
  fix_instruction s =
      elim (or_else (fix_branch_imm load s) (
        or_else (fix_cond_comp_test_branch load s)
          (or_else (fix_loadlit load s) (fix_pcreladdr load s)))) [
            | some s' ↦ s'
            | none ↦ copy_instruction s
          ]

  unfoldable pub fix_loop : ℕ → State → State
  unfolding fix_instruction
  fix_loop zero s = s
  fix_loop (suc count) s = fix_loop count (fix_instruction s)

  -- The words that the trampoline receives. The test of `count` is compiled in a debug build.
  unfoldable pub fix_instructions : ℕ → ℕ → ℕ → ℕ → Outcome (List ℕ)
  unfolding fix_loop jump_back
  fix_instructions inprx count outrwp outrxp =
      if ltb max_instructions count
      then aborted too_many_instructions
      else ok (jump_back (fix_loop count (start_state inprx count outrxp outrwp))).out
