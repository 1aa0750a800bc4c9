-- ===== src/Hook/Routine/Frame.antt =====
-- What the two blocks of inline_asm.s that save and load the registers do with the frame on the stack.
use zeldar.Base.{
  ℕ, zero, suc, ◌+◌, ◌-◌, ◌*◌, ◌^◌, ◌≤◌, ◌<◌, ◌≡◌, ◌⊎◌, inl, inr, refl, ◌∙◌, arith, List, [], ◌∷◌,
}
use mathlib.Core.Path.{subst}
use zeldar.Hook.Machine.{Cpu, Inst, sub_sp, stp, ldp, exec}
use zeldar.Hook.Machine.Runs.{exec_all}
use zeldar.Hook.Routine.{backup_registers, recover_registers}

ltb_cases : (i m : ℕ) → (i < m) ⊎ (m ≤ i)
ltb_cases i m = omega arith

-- `n` pairs of registers from `k` on, at their places in the frame.
abbrev pub saves : (k n : ℕ) → List Inst
saves k zero = []
saves k (suc n) = stp k (k + 1) (8 * k) ∷ saves (k + 2) n

abbrev pub loads : (k n : ℕ) → List Inst
loads k zero = []
loads k (suc n) = ldp k (k + 1) (8 * k) ∷ loads (k + 2) n

-- The words of the frame at `sp` from the place of register `k` up to that of register `m` hold the
-- registers, and the memory is otherwise as it was.
pub record IsSaved (k m sp : ℕ) (x memory memory' : ℕ → ℕ) : Type 0 where
  pub saved : (i : ℕ) → k ≤ i → i < m → memory' (sp + 8 * i) ≡ x i
  pub kept : (a : ℕ) → (a < sp + 8 * k) ⊎ (sp + 8 * m ≤ a) → memory' a ≡ memory a

-- The registers from `k` up to `m` come from the frame, and the others are as they were.
pub record IsLoaded (k m sp : ℕ) (memory x x' : ℕ → ℕ) : Type 0 where
  pub loaded : (i : ℕ) → k ≤ i → i < m → x' i ≡ memory (sp + 8 * i)
  pub kept : (i : ℕ) → (i < k) ⊎ (m ≤ i) → x' i ≡ x i

module _ (k : ℕ) (c : Cpu) (few : k + 2 ≤ 31) (fits : c.sp + 0x100 ≤ 2 ^ 64) where
  stp_IsSaved : IsSaved k (k + 2) c.sp c.x c.memory (exec (stp k (k + 1) (8 * k)) c).memory
  unfolding exec
  stp_IsSaved = record { saved = λ i le lt. ground arith; kept = λ a out. ground arith }

  ldp_IsLoaded : IsLoaded k (k + 2) c.sp c.memory c.x (exec (ldp k (k + 1) (8 * k)) c).x
  unfolding exec
  ldp_IsLoaded = record { loaded = λ i le lt. ground arith; kept = λ i out. ground arith }

IsSaved-trans :
    (k m n sp : ℕ) (x f g h : ℕ → ℕ)
    → k ≤ m
    → m ≤ n
    → IsSaved k m sp x f g
    → IsSaved m n sp x g h
    → IsSaved k n sp x f h
IsSaved-trans k m n sp x f g h le le' first later = record {
  saved = λ i from below. elim (ltb_cases i m) [
    | inl lt ↦ later.kept (sp + 8 * i) (inl (omega arith)) ∙ first.saved i from lt
    | inr ge ↦ later.saved i ge below
  ];
  kept = λ a out. elim out [
    | inl lt ↦ later.kept a (inl (omega arith)) ∙ first.kept a (inl lt)
    | inr ge ↦ later.kept a (inr ge) ∙ first.kept a (inr (omega arith))
  ];
}

IsLoaded-trans :
    (k m n sp : ℕ) (memory f g h : ℕ → ℕ)
    → k ≤ m
    → m ≤ n
    → IsLoaded k m sp memory f g
    → IsLoaded m n sp memory g h
    → IsLoaded k n sp memory f h
IsLoaded-trans k m n sp memory f g h le le' first later = record {
  loaded = λ i from below. elim (ltb_cases i m) [
    | inl lt ↦ later.kept i (inl lt) ∙ first.loaded i from lt
    | inr ge ↦ later.loaded i ge below
  ];
  kept = λ i out. elim out [
    | inl lt ↦ later.kept i (inl (omega arith)) ∙ first.kept i (inl lt)
    | inr ge ↦ later.kept i (inr ge) ∙ first.kept i (inr (omega arith))
  ];
}

nothing-IsSaved : (k sp : ℕ) (x f : ℕ → ℕ) → IsSaved k (k + 2 * 0) sp x f f
nothing-IsSaved k sp x f = record { saved = λ i le lt. absurd (omega arith); kept = λ a out. refl }

nothing-IsLoaded : (k sp : ℕ) (memory x : ℕ → ℕ) → IsLoaded k (k + 2 * 0) sp memory x x
nothing-IsLoaded k sp memory x = record {
  loaded = λ i le lt. absurd (omega arith);
  kept = λ i out. refl;
}

-- The pairs from `k` on are saved one after the other, and registers and SP are left alone.
pub saves-IsSaved :
    (k n : ℕ) (c : Cpu)
    → k + 2 * n ≤ 31
    → c.sp + 0x100 ≤ 2 ^ 64
    → let d = exec_all (saves k n) c in
      (d.sp ≡ c.sp) × (d.x ≡ c.x) × IsSaved k (k + 2 * n) c.sp c.x c.memory d.memory
unfolding exec
saves-IsSaved k zero c few fits = (refl, refl, nothing-IsSaved k c.sp c.x c.memory)
saves-IsSaved k (suc n) c few fits =
    let c' : Cpu = exec (stp k (k + 1) (8 * k)) c in
    let (same_sp, same_x, saved) = saves-IsSaved (k + 2) n c' (omega arith) fits in
    let ends : k + 2 * suc n ≡ k + 2 + 2 * n = omega arith in
    (
      same_sp,
      same_x,
      rw ends (
          IsSaved-trans k (k + 2) (k + 2 + 2 * n) c.sp c.x c.memory c'.memory
            (exec_all (saves (k + 2) n) c').memory (omega arith) (omega arith)
            (stp_IsSaved k c (omega arith) fits) saved),
    )

-- The pairs from `k` on are loaded one after the other, and memory and SP are left alone.
pub loads-IsLoaded :
    (k n : ℕ) (c : Cpu)
    → k + 2 * n ≤ 31
    → c.sp + 0x100 ≤ 2 ^ 64
    → let d = exec_all (loads k n) c in
      (d.sp ≡ c.sp) × (d.memory ≡ c.memory) × IsLoaded k (k + 2 * n) c.sp c.memory c.x d.x
unfolding exec
loads-IsLoaded k zero c few fits = (refl, refl, nothing-IsLoaded k c.sp c.memory c.x)
loads-IsLoaded k (suc n) c few fits =
    let c' : Cpu = exec (ldp k (k + 1) (8 * k)) c in
    let (same_sp, same_memory, loaded) = loads-IsLoaded (k + 2) n c' (omega arith) fits in
    let ends : k + 2 * suc n ≡ k + 2 + 2 * n = omega arith in
    (
      same_sp,
      same_memory,
      rw ends (
          IsLoaded-trans k (k + 2) (k + 2 + 2 * n) c.sp c.memory c.x c'.x
            (exec_all (loads (k + 2) n) c').x (omega arith) (omega arith)
            (ldp_IsLoaded k c (omega arith) fits) loaded),
    )

-- `armBackupRegisters` saves the registers up to X29 in a frame of 256 bytes.
pub backup_registers-IsSaved :
    (c : Cpu)
    → 0x100 ≤ c.sp
    → c.sp < 2 ^ 64
    → let d = exec_all backup_registers c in
      (d.sp ≡ c.sp - 0x100) × (d.x ≡ c.x) × IsSaved 0 30 (c.sp - 0x100) c.x c.memory d.memory
unfolding exec backup_registers
backup_registers-IsSaved c room below =
    let c' : Cpu = exec (sub_sp 0x100) c in
    let lower : c'.sp ≡ c.sp - 0x100 = omega arith in
    let (same_sp, same_x, saved) = saves-IsSaved 0 15 c' (omega arith) (omega arith) in
    let d : Cpu = exec_all (saves 0 15) c' in
    subst (λ (s : ℕ). (d.sp ≡ s) × (d.x ≡ c.x) × IsSaved 0 30 s c.x c.memory d.memory) lower
      (same_sp, same_x, saved)

-- `armRecoverRegisters` loads them again and removes the frame.
pub recover_registers-IsLoaded :
    (c : Cpu)
    → c.sp + 0x100 < 2 ^ 64
    → let d = exec_all recover_registers c in
      (d.sp ≡ c.sp + 0x100) × (d.memory ≡ c.memory) × IsLoaded 0 30 c.sp c.memory c.x d.x
unfolding exec recover_registers
recover_registers-IsLoaded c room =
    let (same_sp, same_memory, loaded) = loads-IsLoaded 0 15 c (omega arith) (omega arith) in
    (omega arith, same_memory, loaded)
