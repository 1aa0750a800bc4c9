-- ===== src/Hook/Machine.antt =====
-- A machine for straight code and calls, as the reference for the entries of the inline hooks and
-- their common routine: registers, a stack pointer and 64-bit words of memory by their address. The
-- code that the machine does not know, such as a callback, is `outside`: what it does from its first
-- instruction until it returns.
pub mod Runs
use zeldar.Base.{
  ℕ, zero, suc, ◌+◌, ◌^◌, ◌≡◌, Option, none, some, List, [], ◌∷◌, ◌==◌, ◌&&◌, if◌then◌else◌, add64,
  sub64,
}
use zeldar.Armv8.Isa.{field, signed, branch_target}

pub record Cpu : Type 0 where
  pub pc : ℕ
  pub sp : ℕ
  pub x : ℕ → ℕ
  pub memory : ℕ → ℕ

-- The instructions of the routine and of an entry; an offset is a pattern of 64 bits.
pub data Inst : Type 0 where
  -- `sub sp, sp, #n` and `add sp, sp, #n`.
  sub_sp add_sp : ℕ → Inst
  -- `stp xt, xu, [sp, #n]` and `ldp xt, xu, [sp, #n]`.
  stp ldp : (t u n : ℕ) → Inst
  -- `mov xd, xn` and `mov xd, sp`.
  mov : (d n : ℕ) → Inst
  mov_sp : ℕ → Inst
  -- `ldr xt, [xn, #k]`, and `stur` and `ldur` with the base SP.
  ldr : (t n k : ℕ) → Inst
  stur ldur : (t k : ℕ) → Inst
  -- Branches: to an address, with a link, to a register with a link, and to LR.
  b bl : ℕ → Inst
  blr : ℕ → Inst
  ret : Inst

-- A register or a word of memory, written.
abbrev pub put : ℕ → ℕ → (ℕ → ℕ) → ℕ → ℕ
put a v f i = if i == a then v else f i

-- The registers and the memory after an instruction; `blr` and `bl` leave their link.
abbrev pub effect : Inst → Cpu → Cpu
effect (sub_sp n) c = record c { sp = sub64 c.sp n }
effect (add_sp n) c = record c { sp = add64 c.sp n }
effect (stp t u n) c = record c {
  memory = put (add64 (add64 c.sp n) 8) (c.x u) (put (add64 c.sp n) (c.x t) c.memory);
}
effect (ldp t u n) c = record c {
  x = put u (c.memory (add64 (add64 c.sp n) 8)) (put t (c.memory (add64 c.sp n)) c.x);
}
effect (mov d n) c = record c { x = put d (c.x n) c.x }
effect (mov_sp d) c = record c { x = put d c.sp c.x }
effect (ldr t n k) c = record c { x = put t (c.memory (add64 (c.x n) k)) c.x }
effect (stur t k) c = record c { memory = put (add64 c.sp k) (c.x t) c.memory }
effect (ldur t k) c = record c { x = put t (c.memory (add64 c.sp k)) c.x }
effect (b a) c = c
effect (bl a) c = record c { x = put 30 (add64 c.pc 4) c.x }
effect (blr n) c = record c { x = put 30 (add64 c.pc 4) c.x }
effect ret c = c

-- Where the machine continues.
abbrev pub target : Inst → Cpu → ℕ
target (b a) c = a
target (bl a) c = a
target (blr n) c = c.x n
target ret c = c.x 30
target i c = add64 c.pc 4

unfoldable pub exec : Inst → Cpu → Cpu
exec i c = record (effect i c) { pc = target i c }

-- The instruction of a word at `at`: `STUR` and `LDUR` of a 64-bit register with the base SP, `B` and
-- `BL`.
unfoldable pub decode : ℕ → ℕ → Option Inst
decode at word =
    if field 21 11 word == 0b11111000000 && field 10 2 word == 0 && field 5 5 word == 31
    then some (stur (field 0 5 word) (signed 9 (field 12 9 word)))
    else if field 21 11 word == 0b11111000010 && field 10 2 word == 0 && field 5 5 word == 31
    then some (ldur (field 0 5 word) (signed 9 (field 12 9 word)))
    else if field 26 6 word == 0b000101
    then some (b (branch_target at word))
    else if field 26 6 word == 0b100101
    then some (bl (branch_target at word))
    else none

-- One step, of the code that is known or of all that is `outside`.
unfoldable pub tick : (ℕ → Option Inst) → (Cpu → Cpu) → Cpu → Cpu
tick fetch outside c = elim (fetch c.pc) [ none ↦ outside c | some i ↦ exec i c ]

unfoldable pub run : (ℕ → Option Inst) → (Cpu → Cpu) → ℕ → Cpu → Cpu
unfolding tick
run fetch outside zero c = c
run fetch outside (suc n) c = run fetch outside n (tick fetch outside c)

-- The instructions stand at `at`, one after the other.
abbrev pub Holds : (ℕ → Option Inst) → ℕ → List Inst → Type 0
Holds fetch at [] = Unit
Holds fetch at (i ∷ is) = (fetch at ≡ some i) × Holds fetch (add64 at 4) is

-- The words at `at` are decoded where they stand.
abbrev pub HoldsWords : (ℕ → Option Inst) → ℕ → List ℕ → Type 0
HoldsWords fetch at [] = Unit
HoldsWords fetch at (word ∷ words) =
    (fetch at ≡ decode at word) × HoldsWords fetch (add64 at 4) words
