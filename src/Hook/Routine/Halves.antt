-- ===== src/Hook/Routine/Halves.antt =====
-- The two halves of the routine of src/lib/hook/nx64/inline_asm.s, before and after the callback.
use zeldar.Base.{
  ℕ, ◌+◌, ◌-◌, ◌*◌, ◌^◌, ◌≤◌, ◌<◌, ◌≡◌, ◌⊎◌, inr, refl, ap, ◌∙◌, arith, List, [], ◌∷◌, ◌++◌, add64,
}
use zeldar.Hook.Machine.{Cpu, Inst, mov, mov_sp, ldr, exec}
use zeldar.Hook.Machine.Runs.{exec_all, exec_all-append}
use zeldar.Hook.Routine.{backup_registers, recover_registers}
use zeldar.Hook.Routine.Frame.{IsSaved, backup_registers-IsSaved, recover_registers-IsLoaded}

-- The routine between the call by the entry and the call of the callback, from `c` to the callback's
-- first instruction.
abbrev pub before_call : List Inst
before_call = backup_registers ++ mov 19 30 ∷ mov_sp 0 ∷ ldr 20 19 0x8 ∷ []

abbrev pub after_call : List Inst
after_call = mov 30 19 ∷ recover_registers

callback_lem :
    (c : Cpu)
    → let d = exec_all (mov 19 30 ∷ mov_sp 0 ∷ ldr 20 19 0x8 ∷ []) c in
      (d.sp ≡ c.sp)
      × (d.x 0 ≡ c.sp)
      × (d.x 19 ≡ c.x 30)
      × (d.x 20 ≡ c.memory (add64 (c.x 30) 8))
      × (d.memory ≡ c.memory)
unfolding exec
callback_lem c = (refl, refl, refl, refl, refl)

pub before_call_lem :
    (c : Cpu)
    → 0x100 ≤ c.sp
    → c.sp < 2 ^ 64
    → (add64 (c.x 30) 8 < c.sp - 0x100) ⊎ (c.sp ≤ add64 (c.x 30) 8)
    → let d = exec_all before_call c in
      (d.sp ≡ c.sp - 0x100)
      × (d.x 0 ≡ c.sp - 0x100)
      × (d.x 19 ≡ c.x 30)
      × (d.x 20 ≡ c.memory (add64 (c.x 30) 8))
      × IsSaved 0 30 (c.sp - 0x100) c.x c.memory d.memory
before_call_lem c room below apart =
    let (lower, same, saved) = backup_registers-IsSaved c room below in
    let (sp_eq, x0, x19, x20, memory_eq) = callback_lem (exec_all backup_registers c) in
    let same_lr = ap (λ (x : ℕ → ℕ). x 30) same in
    rw (exec_all-append backup_registers (mov 19 30 ∷ mov_sp 0 ∷ ldr 20 19 0x8 ∷ []) c) (
      sp_eq ∙ lower,
      x0 ∙ lower,
      x19 ∙ same_lr,
      x20
          ∙ ap (λ (a : ℕ). (exec_all backup_registers c).memory (add64 a 8)) same_lr
          ∙ saved.kept (add64 (c.x 30) 8) (omega arith),
      rw memory_eq saved,
    )

pub after_call_lem :
    (c : Cpu)
    → c.sp + 0x100 < 2 ^ 64
    → let d = exec_all after_call c in
      (d.sp ≡ c.sp + 0x100)
      × (d.memory ≡ c.memory)
      × (d.x 30 ≡ c.x 19)
      × ((i : ℕ) → i < 30 → d.x i ≡ c.memory (c.sp + 8 * i))
unfolding exec
after_call_lem c room =
    let c' : Cpu = exec (mov 30 19) c in
    let (higher, same_memory, loaded) = recover_registers-IsLoaded c' room in
    (
      higher,
      same_memory,
      loaded.kept 30 (inr (omega arith)),
      λ i lt. loaded.loaded i (omega arith) lt,
    )
