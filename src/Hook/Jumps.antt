-- ===== src/Hook/Jumps.antt =====
-- The jumps that the hook writes go where they should.
use mathlib.Core.List.{append_assoc}
use zeldar.Base.{
  ℕ, ◌+◌, ◌*◌, ◌/◌, ◌%◌, ◌^◌, ◌<◌, ◌≡◌, false, some, List, [], ◌∷◌, ◌++◌, bit_and, bit_or, arith,
  Bool-cases, inl, inr, ◌≢◌, leb, ◌==◌, if◌then◌else◌, add64, sub64, asr64, llabs, length,
}
use zeldar.Base.Masks.{mask_low, bit_or_low}
use zeldar.Armv8.Isa.{branch_target}
use zeldar.Hook.Context.{State, outprx, emit, words_of, aarch64_nop}
use zeldar.Hook.Fix.{pad, far_b, far_bl, branch_absolute_addr}
use zeldar.Hook.Fix.Loop.{jump_back}
use zeldar.Hook.Install.{far_count, far_patch, near_patch, is_far}
use zeldar.Hook.Exec.{leaves, calls}

-- The word of a branch over `off`, a distance in words, as a sum.
branch_word :
    (op off : ℕ)
    → op < 2 ^ 6
    → bit_or (op * 2 ^ 26) (bit_and off 0x03ffffff) ≡ op * 2 ^ 26 + off % 2 ^ 26
branch_word op off h = ground (arith, mask_low 26 off, bit_or_low 26 op (off % 2 ^ 26))

-- A distance within reach survives the cut to 26 bits.
branch_reach :
    (op at target : ℕ)
    → at < 2 ^ 64
    → target < 2 ^ 64
    → at % 4 ≡ 0
    → target % 4 ≡ 0
    → llabs (asr64 (sub64 target at) 2) < 0x03ffffff / 2
    → branch_target at (op * 2 ^ 26 + asr64 (sub64 target at) 2 % 2 ^ 26) ≡ target
branch_reach op at target h h' a a' near = ground arith

-- An address that the machine can jump to.
abbrev pub IsCode : ℕ → Type 0
IsCode a = (a < 2 ^ 64) × (a % 4 ≡ 0)

-- One `B` within reach.
pub leaves-branch :
    (at target : ℕ)
    → IsCode at
    → IsCode target
    → leb (0x03ffffff / 2) (llabs (asr64 (sub64 target at) 2)) ≡ false
    → leaves at (bit_or 0x14000000 (bit_and (asr64 (sub64 target at) 2) 0x03ffffff) ∷ [])
      ≡ some target
unfolding leaves
leaves-branch at target h h' near =
    let word = branch_word 5 (asr64 (sub64 target at) 2) (omega arith) in
    let goes = branch_reach 5 at target h.0 h'.0 h.1 h'.1 (ground arith) in rw word (ground arith)

-- The jump by a literal, at an address that is a multiple of 8.
pub leaves-literal :
    (at target : ℕ)
    → at % 8 ≡ 0
    → leaves at (0x58000051 ∷ 0xd61f0220 ∷ words_of target) ≡ some target
unfolding leaves
leaves-literal at target h = ground arith

-- The same behind a `NOP`, at an address that is none.
leaves-nop_literal :
    (at target : ℕ)
    → IsCode at
    → add64 at 8 % 8 ≢ 0
    → leaves at (aarch64_nop ∷ 0x58000051 ∷ 0xd61f0220 ∷ words_of target) ≡ some target
unfolding leaves
leaves-nop_literal at target h odd = ground (arith, leaves-literal (add64 at 4) target)

-- Behind the jump by a literal, whatever follows.
pub far_patch-leaves :
    (symbol replace : ℕ) → IsCode symbol → leaves symbol (far_patch symbol replace) ≡ some replace
unfolding far_patch far_count
far_patch-leaves symbol replace h =
    ground (arith, leaves-literal symbol replace, leaves-nop_literal symbol replace h)

pub near_patch-leaves :
    (at target : ℕ)
    → IsCode at
    → IsCode target
    → is_far at target ≡ false
    → leaves at (near_patch at target) ≡ some target
unfolding near_patch is_far
near_patch-leaves at target h h' near = leaves-branch at target h h' near

-- The words that jump from one address to another.
abbrev pub patch_words : ℕ → ℕ → List ℕ
patch_words at target = if is_far at target then far_patch at target else near_patch at target

-- The patch of a hooked function goes to the replacement, whatever the distance and the alignment
-- of the two.
pub patch_words-leaves :
    (symbol replace : ℕ)
    → IsCode symbol
    → IsCode replace
    → leaves symbol (patch_words symbol replace) ≡ some replace
patch_words-leaves symbol replace h h' = elim (Bool-cases (is_far symbol replace)) [
  | inl far ↦ rw far (far_patch-leaves symbol replace h)
  | inr near ↦ rw near (near_patch-leaves symbol replace h h' near)
]

out-jump_back : (s : State) → (jump_back s).out ≡ s.out ++ patch_words (outprx s) s.inp
unfolding jump_back emit far_patch far_count near_patch is_far
out-jump_back s =
    ground (arith, append_assoc s.out (aarch64_nop ∷ []) (0x58000051 ∷ 0xd61f0220 ∷ words_of s.inp))

-- `jump_back` adds words that continue at the first instruction that was not rewritten, near or
-- far, from any place of the output.
pub jump_back-leaves :
    (s : State)
    → IsCode s.inp
    → IsCode (outprx s)
    → (tail : List ℕ) × ((jump_back s).out ≡ s.out ++ tail) × (leaves (outprx s) tail ≡ some s.inp)
jump_back-leaves s h h' =
    (patch_words (outprx s) s.inp, out-jump_back s, patch_words-leaves (outprx s) s.inp h' h)

-- A far `B`.
pub out-far_b :
    (idx target : ℕ) (s : State) → (far_b idx target s).out ≡ s.out ++ far_patch (outprx s) target
unfolding far_b pad emit far_patch far_count
out-far_b idx target s =
    ground
      (arith, append_assoc s.out (aarch64_nop ∷ []) (0x58000051 ∷ 0xd61f0220 ∷ words_of target))

abbrev pub far_call : ℕ → ℕ → List ℕ
far_call at target =
    let call = 0x58000071 ∷ 0x1000009e ∷ 0xd61f0220 ∷ words_of target in
    if far_count at == 5 then call else aarch64_nop ∷ call

pub out-far_bl :
    (idx target : ℕ) (s : State) → (far_bl idx target s).out ≡ s.out ++ far_call (outprx s) target
unfolding far_bl pad emit far_count
out-far_bl idx target s = ground (
  arith,
  append_assoc s.out (aarch64_nop ∷ []) (0x58000071 ∷ 0x1000009e ∷ 0xd61f0220 ∷ words_of target),
)

-- A far `BL` calls its target and links to the word behind it.
pub calls-far_call :
    (at target : ℕ)
    → IsCode at
    → calls at (far_call at target)
      ≡ some (record { target = target; link = add64 at (4 * length (far_call at target)) })
unfolding calls far_count
calls-far_call at target h = ground arith

pub calls-near :
    (at target : ℕ)
    → IsCode at
    → IsCode target
    → leb (0x03ffffff / 2) (llabs (asr64 (sub64 target at) 2)) ≡ false
    → calls at (bit_or 0x94000000 (bit_and (asr64 (sub64 target at) 2) 0x03ffffff) ∷ [])
      ≡ some (record { target = target; link = add64 at 4 })
unfolding calls
calls-near at target h h' near =
    let word = branch_word 37 (asr64 (sub64 target at) 2) (omega arith) in
    let goes = branch_reach 37 at target h.0 h'.0 h.1 h'.1 (ground arith) in rw word (ground arith)

-- The address that the source computes is where the instruction goes.
pub branch_absolute_addr_lem :
    (load : ℕ → ℕ) (s : State)
    → load s.inp < 2 ^ 32
    → branch_absolute_addr load s ≡ branch_target s.inp (load s.inp)
branch_absolute_addr_lem load s h = ground arith
