-- ===== src/Hook/Tests.antt =====
-- The theorems about src/lib/hook/nx64/hook_impl.cpp at concrete code.
use zeldar.Base.{
  ◌↔◌, ◌%◌, aborted, ℕ, ◌+◌, ◌*◌, ◌≤◌, ◌<◌, ◌≡◌, ◌⊎◌, inl, inr, refl, arith, true, false, Option,
  some, fault, List, [], ◌∷◌, ◌++◌, replicate, length, ok, add64,
}
use zeldar.Hook.Context.{
  trampoline_size, State, outprx, current_index, is_in_fixing_range, dat_at, get_ref_ins_index,
  aarch64_nop,
}
use zeldar.Hook.Fix.{fix_branch_imm, fix_cond_comp_test_branch}
use zeldar.Armv8.Isa.{target14, target19}
use zeldar.Hook.CondWords.{IsCondition, IsBitTest}
use zeldar.Hook.Conditions.{
  HasTest, fix_cond_comp_test_branch-exits, fix_cond_comp_test_branch-bit_exits,
}
use zeldar.Hook.Fix.Literal.{words_at, literal_kind, copied_literal}
use zeldar.Hook.Fix.Loop.{jump_back, fix_instructions, start_state}
use zeldar.Hook.Install.{
  hook_max, hook_pool_size, trampoline_alloc_fail, alloc_for_trampoline, Trampoline, Hooked, hook,
}
use zeldar.Hook.Exec.{leaves, calls, cond_exits}
use zeldar.Hook.Jumps.{jump_back-leaves, patch_words, patch_words-leaves}
use zeldar.Hook.Branches.{fix_branch_imm-leaves, fix_branch_imm-calls}
use zeldar.Hook.Literals.{copied_literal-aligned}
use zeldar.Hook.Served.Tests.{pager}
use zeldar.RwPages.Tests.{space}
use zeldar.Virtmem.{Virtmem}
use zeldar.Hook.Size.Bound.{fix_instructions-trampoline_size}
use zeldar.Hook.Slots.{alloc_for_trampoline_slots}

-- Code of one word throughout: `NOP`, `B #0x40`, `BL #0x40`.
abbrev nops : ℕ → ℕ
nops a = aarch64_nop

abbrev branches : ℕ → ℕ
branches a = 0x14000010

abbrev links : ℕ → ℕ
links a = 0x94000010

-- One instruction at 0x1000, rewritten to 4 GiB.
abbrev far_away : State
far_away = start_state 0x1000 1 0x1_0000_0000 0x2_0000_0000

-- The hook returns.
hook_returns :
    (r : Hooked × Option Trampoline × ℕ × Virtmem) × (hook pager space nops 0x10000 0x20000 0 0x1000
        0x1_0000_0000 true
      ≡ ok r)
unfolding hook
hook_returns = (_, refl)

-- A far hook whose words cross the end of a page does not.
hook_crosses : hook pager space nops 0x10000 0x20000 0 0x1ff4 0x1_0000_0000 true ≡ fault
unfolding hook
hook_crosses = refl

fix_instructions-trampoline_size_example :
    (words : List ℕ) × (fix_instructions branches 0x1000 5 0x2_0000_0000 0x1_0000_0000 ≡ ok words)
    × (length words ≤ trampoline_size)
fix_instructions-trampoline_size_example =
    fix_instructions-trampoline_size branches 0x1000 5 0x2_0000_0000 0x1_0000_0000 (omega arith)
      refl

fix_branch_imm-leaves_example :
    (s' : State) × (tail : List ℕ) × (fix_branch_imm branches far_away ≡ some s')
    × (s'.out ≡ far_away.out ++ tail)
    × (leaves (outprx far_away) tail ≡ some 0x1040)
    × (s'.inp ≡ add64 far_away.inp 4)
unfolding is_in_fixing_range current_index get_ref_ins_index dat_at
fix_branch_imm-leaves_example =
    fix_branch_imm-leaves branches far_away (omega arith) refl (omega arith, refl)
      (omega arith, refl) refl refl

fix_branch_imm-calls_example :
    (s' : State) × (tail : List ℕ) × (fix_branch_imm links far_away ≡ some s')
    × (s'.out ≡ far_away.out ++ tail)
    × (calls (outprx far_away) tail
        ≡ some (record { target = 0x1040; link = add64 (outprx far_away) (4 * length tail) }))
    × (s'.inp ≡ add64 far_away.inp 4)
unfolding is_in_fixing_range current_index get_ref_ins_index dat_at
fix_branch_imm-calls_example =
    fix_branch_imm-calls links far_away (omega arith) refl (omega arith, refl) (omega arith, refl)
      refl refl

jump_back-leaves_example :
    (tail : List ℕ) × ((jump_back far_away).out ≡ far_away.out ++ tail)
    × (leaves (outprx far_away) tail ≡ some 0x1000)
jump_back-leaves_example = jump_back-leaves far_away (omega arith, refl) (omega arith, refl)

patch_words-leaves_example : leaves 0x1000 (patch_words 0x1000 0x1_0000_0000) ≡ some 0x1_0000_0000
patch_words-leaves_example =
    patch_words-leaves 0x1000 0x1_0000_0000 (omega arith, refl) (omega arith, refl)

-- `LDR X0, #0x40`.
abbrev loads : ℕ → ℕ
loads a = 0x58000200

copied_literal-aligned_example :
    (n : ℕ) × ((copied_literal loads 0xbf000000 7 0 0x1040 far_away).out
      ≡ (far_away.out ++ replicate n aarch64_nop)
        ++ 0x58000040 ∷ 0x14000003 ∷ 0x58000200 ∷ 0x58000200 ∷ [])
    × (n < 2)
    × (add64 (outprx far_away) (4 * n + 8) % 8 ≡ 0)
unfolding words_at literal_kind
copied_literal-aligned_example =
    copied_literal-aligned loads 0xbf000000 7 0 0x1040 far_away refl (omega arith) refl

alloc_for_trampoline_slots_example :
    ((20 ≤ hook_max)
      × ((t : Trampoline) × (alloc_for_trampoline 0x10000 0x20000 20 ≡ ok (t, 20 + 1))
          × (t.rx ≡ 0x10000 + 20 * 200)
          × (t.rw ≡ 0x20000 + 20 * 200)
          × ((t.rx + 200 ≤ 0x10000 + hook_pool_size) ↔ (20 < hook_max))))
    ⊎ ((hook_max < 20) × (alloc_for_trampoline 0x10000 0x20000 20 ≡ aborted trampoline_alloc_fail))
alloc_for_trampoline_slots_example =
    alloc_for_trampoline_slots 0x10000 0x20000 20 (omega arith) (omega arith)

-- `CBZ X0, #0x40`.
abbrev tests : ℕ → ℕ
tests a = 0xb4000200

tests-IsCondition : IsCondition (tests far_away.inp)
unfolding IsCondition
tests-IsCondition = inr (inl refl)

fix_cond_comp_test_branch-exits_example :
    (s' : State) × (tail : List ℕ) × (fix_cond_comp_test_branch tests far_away ≡ some s')
    × (s'.out ≡ far_away.out ++ tail)
    × HasTest 24 0xb4000200 tail
    × (cond_exits target19 true (outprx far_away) tail ≡ some 0x1040)
    × (s'.inp ≡ add64 far_away.inp 4)
unfolding is_in_fixing_range current_index get_ref_ins_index dat_at
fix_cond_comp_test_branch-exits_example =
    fix_cond_comp_test_branch-exits tests far_away (omega arith) true (omega arith, refl)
      (omega arith, refl) refl tests-IsCondition (omega arith) refl

-- `TBNZ X0, #35, #0x40`.
abbrev bit_tests : ℕ → ℕ
bit_tests a = 0xb7180200

bit_tests-IsBitTest : IsBitTest (bit_tests far_away.inp)
unfolding IsBitTest
bit_tests-IsBitTest = inr refl

fix_cond_comp_test_branch-bit_exits_example :
    (s' : State) × (tail : List ℕ) × (fix_cond_comp_test_branch bit_tests far_away ≡ some s')
    × (s'.out ≡ far_away.out ++ tail)
    × HasTest 19 0xb7180200 tail
    × (cond_exits target14 false (outprx far_away) tail
        ≡ some (add64 (outprx far_away) (4 * length tail)))
    × (s'.inp ≡ add64 far_away.inp 4)
unfolding is_in_fixing_range current_index get_ref_ins_index dat_at
fix_cond_comp_test_branch-bit_exits_example =
    fix_cond_comp_test_branch-bit_exits bit_tests far_away (omega arith) false (omega arith, refl)
      (omega arith, refl) refl bit_tests-IsBitTest (omega arith) refl
