-- ===== src/Hook/Routine/Context.antt =====
-- What a callback of an inline hook is given, `InlineCtx` of src/lib/hook/nx64/inline_impl.hpp, and what
-- is left when it has returned.
use zeldar.Base.{ℕ, zero, suc, ◌+◌, ◌-◌, ◌*◌, ◌≤◌, ◌<◌, ◌≡◌, ◌⊎◌, refl, ap₂, arith, List, [], ◌∷◌}
use zeldar.Hook.Machine.{Cpu}

-- `n` of the numbered values from `k` on.
unfoldable pub values_from : (k n : ℕ) → (ℕ → ℕ) → List ℕ
values_from k zero f = []
values_from k (suc n) f = f k ∷ values_from (k + 1) n f

-- `InlineCtx` at an address: the words of `m_Gp`, which the callback gets and may change.
unfoldable pub inline_ctx : ℕ → (ℕ → ℕ) → List ℕ
unfolding values_from
inline_ctx at memory = values_from 0 31 (λ i. memory (at + 8 * i))

-- X0 to X30.
unfoldable pub registers : Cpu → List ℕ
unfolding values_from
registers c = values_from 0 31 c.x

pub values_from_eq :
    (k n : ℕ) (f g : ℕ → ℕ)
    → ((i : ℕ) → k ≤ i → i < k + n → f i ≡ g i)
    → values_from k n f ≡ values_from k n g
unfolding values_from
values_from_eq k zero f g h = refl
values_from_eq k (suc n) f g h =
    ap₂ (λ (v : ℕ) vs. v ∷ vs) (h k (omega arith) (omega arith))
      (values_from_eq (k + 1) n f g (λ i le lt. h i (omega arith) (omega arith)))

-- What a callback gets: its first argument is the context on the stack, which holds X0 to X30 as they
-- were at the hook, and the memory outside of the frame is as it was.
pub record IsSeen (callback : ℕ) (c seen : Cpu) : Type 0 where
  pub called : seen.pc ≡ callback
  pub argument : seen.x 0 ≡ c.sp - 0x100
  pub lower : seen.sp ≡ c.sp - 0x100
  pub context : inline_ctx (c.sp - 0x100) seen.memory ≡ registers c
  pub kept : (a : ℕ) → ((c.sp - 0x100 ≤ a) × (a < c.sp)) ⊎ (seen.memory a ≡ c.memory a)

-- What is left when the callback has returned with `given`: the code continues with X0 to X30 from the
-- context, and with the stack pointer of the hook.
pub record IsResumed (continues : ℕ) (c given final : Cpu) : Type 0 where
  pub resumed : final.pc ≡ continues
  pub same_sp : final.sp ≡ c.sp
  pub same_memory : final.memory ≡ given.memory
  pub context : registers final ≡ inline_ctx (c.sp - 0x100) given.memory

-- A callback that keeps to the procedure call standard: it returns to its link with SP and with the
-- registers that belong to the caller.
abbrev pub IsCallback : (Cpu → Cpu) → ℕ → Type 0
IsCallback outside callback =
    (c : Cpu)
    → c.pc ≡ callback
    → ((outside c).pc ≡ c.x 30)
      × ((outside c).sp ≡ c.sp)
      × ((i : ℕ) → 19 ≤ i → i ≤ 29 → (outside c).x i ≡ c.x i)
