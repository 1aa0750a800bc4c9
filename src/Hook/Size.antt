-- ===== src/Hook/Size.antt =====
-- What the parts of the rewriting in src/lib/hook/nx64/hook_impl.cpp add to its output.
pub mod Fixes
pub mod Padding
pub mod Bound
use zeldar.Base.{
  ℕ, zero, suc, ◌+◌, ◌-◌, ◌*◌, ◌/◌, ◌%◌, ◌≤◌, ◌≡◌, refl, ap, ◌∙◌, sym, Bool, true, false, List, [],
  ◌∷◌, ◌++◌, arith, Bool-cases, Option-cases, add64, inl, inr, if◌then◌else◌, Option, none, some,
  length, length-append, length-set, ◌^◌, ◌<◌,
}
use zeldar.Hook.Context.{
  aarch64_nop, FixInfo, State, dat_at, outprx, emit, set_current, process_infos, process_fix_map,
  finish,
}
use zeldar.Hook.Fix.{refer, pad, misaligned, far_b, far_bl, near_branch, fix_branch}
use zeldar.Hook.Fix.Literal.{pad_while}

-- At most `n` words more, in the same output.
abbrev pub Grows : ℕ → State → State → Type 0
Grows n s s' = (length s'.out ≤ length s.out + n) × (s'.out_base ≡ s.out_base)

pub Grows-trans : (m n : ℕ) (s t u : State) → Grows m s t → Grows n t u → Grows (m + n) s u
Grows-trans m n s t u (h, b) (h', b') = (omega arith, b' ∙ b)

pub Grows-weaken : (m n : ℕ) (s t : State) → m ≤ n → Grows m s t → Grows n s t
Grows-weaken m n s t le (h, b) = (omega arith, b)

pub Grows-if :
    (n : ℕ) (s a b : State) (c : Bool) → Grows n s a → Grows n s b → Grows n s (if c then a else b)
Grows-if n s a b true h h' = h
Grows-if n s a b false h h' = h'

pub emit-Grows : (ws : List ℕ) (s : State) → Grows (length ws) s (emit ws s)
unfolding emit
emit-Grows ws s = (ground (arith, length-append s.out ws), refl)

pub set_current-Grows : (idx : ℕ) (s : State) → Grows 0 s (set_current idx s)
unfolding set_current
set_current-Grows idx s = (ground arith, refl)

length-process_infos :
    (ins : ℕ) (fs : List FixInfo) (out : List ℕ) → length (process_infos ins fs out) ≡ length out
unfolding process_infos
length-process_infos ins [] out = refl
length-process_infos ins (f ∷ fs) out = elim (Option-cases f.bprw) [
  | inl h ↦ rw h refl
  | inr (i, h) ↦ rw h (length-process_infos ins fs _ ∙ length-set out i _)
]

pub process_fix_map-Grows : (idx : ℕ) (s : State) → Grows 0 s (process_fix_map idx s)
unfolding process_fix_map
process_fix_map-Grows idx s =
    (omega (arith, length-process_infos (dat_at s.ctx idx).ins (dat_at s.ctx idx).fmap s.out), refl)

pub finish-Grows : (n idx : ℕ) (s t : State) → Grows n s t → Grows n s (finish idx t)
unfolding finish
finish-Grows n idx s t h =
    let moved = record t { inp = add64 t.inp 4 } in
    Grows-weaken (n + 0) n s (finish idx t) (omega arith)
      (Grows-trans n 0 s moved (finish idx t) h (process_fix_map-Grows idx moved))

pub refer-Grows : (idx ref_idx ls ad : ℕ) (s : State) → Grows 0 s (refer idx ref_idx ls ad s).0
unfolding refer
refer-Grows idx ref_idx ls ad s = ground arith

pub emit_after-Grows :
    (m n : ℕ) (ws : List ℕ) (s t : State) → m + length ws ≤ n → Grows m s t → Grows n s (emit ws t)
emit_after-Grows m n ws s t le h =
    Grows-weaken (m + length ws) n s (emit ws t) le
      (Grows-trans m (length ws) s t (emit ws t) h (emit-Grows ws t))

pub set_current_after-Grows :
    (n idx : ℕ) (s t : State) → Grows n s t → Grows n s (set_current idx t)
set_current_after-Grows n idx s t h =
    Grows-weaken (n + 0) n s (set_current idx t) (omega arith)
      (Grows-trans n 0 s t (set_current idx t) h (set_current-Grows idx t))

pub Grows-refl : (n : ℕ) (s : State) → Grows n s s
Grows-refl n s = (omega arith, refl)

pub pad-Grows : (idx : ℕ) (s : State) → Grows 1 s (pad idx s)
unfolding pad
pad-Grows idx s =
    set_current_after-Grows 1 idx s (emit (aarch64_nop ∷ []) s) (emit-Grows (aarch64_nop ∷ []) s)

-- Behind the place that is recorded first, and before the end of the function.
pub rewritten-Grows :
    (idx : ℕ) (s t : State) → Grows 9 (set_current idx s) t → Grows 9 s (finish idx t)
rewritten-Grows idx s t h =
    finish-Grows 9 idx s t (Grows-trans 0 9 s (set_current idx s) t (set_current-Grows idx s) h)

-- An instruction that a function takes on adds at most nine words.
abbrev pub GrowsIfTaken : State → Option State → Type 0
GrowsIfTaken s none = Unit
GrowsIfTaken s (some t) = Grows 9 s t
