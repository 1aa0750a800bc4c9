-- ===== src/Hook/Over/Tests.antt =====
-- References among the rewritten instructions of concrete code.
use zeldar.Base.{
  ℕ, ◌+◌, ◌*◌, ◌≤◌, ◌≡◌, ◌⊎◌, refl, sym, arith, if◌then◌else◌, ◌==◌, Option, none, some, [], ◌∷◌,
  ◌++◌, get_or, ok,
}
use mathlib.Core.Path.{subst}
use zeldar.Hook.Context.{
  State, dat_at, set_current, current_index, get_ref_ins_index, is_in_fixing_range, process_fix_map,
}
use zeldar.Hook.Fix.{cond_lmask, fix_branch_imm}
use zeldar.Hook.Fix.Literal.{words_at, literal_kind}
use zeldar.Hook.Branches.{IsUnreferenced}
use zeldar.Hook.Copied.{IsPlain}
use zeldar.Hook.Over.{fix_loop-over}
use zeldar.Hook.Fix.Loop.{fix_instruction, fix_loop, fix_instructions, start_state}
use zeldar.Hook.Exec.{leaves}
use zeldar.Hook.Install.{is_far}
use zeldar.Hook.References.{fix_branch_imm-fixed_up}

-- `B #8` at 0x1000 over a call, and `B #-8` behind it.
abbrev code : ℕ → ℕ
code a = if a == 0x1000 then 0x14000002 else if a == 0x1008 then 0x17fffffe else 0x94000100

abbrev entered : State
entered = start_state 0x1000 4 0x2_0000_0000 0x1_0000_0000

abbrev result : Option State → State
result (some s) = s
result none = entered

abbrev referred : State
referred = result (fix_branch_imm code entered)

-- After the call, which the rewriting makes five words of: the place of the third instruction.
abbrev passed : State
passed = fix_instruction code referred

abbrev reached : State
reached = set_current 2 passed

-- The first branch goes to the seventh word, and the second one, which stands there, to the first.
rewritten :
    fix_instructions code 0x1000 4 0x1_0000_0000 0x2_0000_0000
    ≡ ok (
        0x14000006 ∷ 0x58000071 ∷ 0x1000009e ∷ 0xd61f0220 ∷ 0x1404 ∷ 0 ∷ 0x17fffffa ∷ 0x58000071
        ∷ 0x1000009e ∷ 0xd61f0220 ∷ 0x140c ∷ 0 ∷ 0x58000051 ∷ 0xd61f0220 ∷ 0x1010 ∷ 0 ∷ [])
unfolding fix_instructions
rewritten = refl

fix_branch_imm-fixed_up_example :
    (referred.out ≡ entered.out ++ 0x14000000 ∷ [])
    × (leaves 0x2_0000_0000 (get_or (process_fix_map 2 reached).out 0 0 ∷ []) ≡ some 0x2_0000_0018)
    × ((i : ℕ) → (i ≡ 0) ⊎ (get_or (process_fix_map 2 reached).out i 0 ≡ get_or reached.out i 0))
unfolding fix_branch_imm fix_instruction set_current current_index get_ref_ins_index dat_at
    is_in_fixing_range is_far
fix_branch_imm-fixed_up_example =
    fix_branch_imm-fixed_up code entered (omega arith) refl refl refl referred reached
      (0x58000071 ∷ 0x1000009e ∷ 0xd61f0220 ∷ 0x1404 ∷ 0 ∷ []) (omega arith) (omega arith) refl refl
      refl refl (omega arith, refl) (omega arith, refl) refl

-- A call, and `B #-4` behind it.
abbrev back_code : ℕ → ℕ
back_code a = if a == 0x1004 then 0x17ffffff else 0x94000100

abbrev called : State
called = fix_instruction back_code entered

-- `B #12` over two instructions that are copied: `ADD X0, X0, #1` throughout.
abbrev jump_code : ℕ → ℕ
jump_code a = if a == 0x1000 then 0x14000003 else 0x91000400

added-IsPlain : IsPlain jump_code 0x91000400
unfolding IsPlain cond_lmask literal_kind
added-IsPlain = (
  λ e. omega (arith, e),
  λ e. omega (arith, e),
  refl,
  λ e. omega (arith, e),
  refl,
  λ e. omega (arith, e),
  λ e. omega (arith, e),
)

entered-IsUnreferenced : (i : ℕ) → i ≤ 0 + 2 + 1 → IsUnreferenced i entered.ctx
unfolding dat_at
entered-IsUnreferenced i le = ground arith

added_code : (k : ℕ) → jump_code (0x1000 + 4 + 4 * k) ≡ 0x91000400
added_code k = ground arith

fix_loop-over_example :
    (b : ℕ) × ((fix_loop jump_code 4 entered).out ≡ b ∷ 0x91000400 ∷ 0x91000400 ∷ 0x91000400 ∷ [])
    × (leaves 0x2_0000_0000 (b ∷ []) ≡ some 0x2_0000_000c)
unfolding is_in_fixing_range words_at
fix_loop-over_example =
    fix_loop-over jump_code entered (omega arith) refl refl 2 0 refl (omega arith) refl
      (omega arith) (omega arith) entered-IsUnreferenced
      (λ k le. subst (IsPlain jump_code) (sym (added_code k)) added-IsPlain) (omega arith, refl)
      (omega arith)
