-- ===== src/Hook/Slots.antt =====
-- The slots of `AllocForTrampoline`, src/lib/hook/nx64/hook_impl.cpp.
use zeldar.Base.{
  ℕ, ◌+◌, ◌*◌, ◌^◌, ◌≤◌, ◌<◌, ◌≡◌, ◌↔◌, ◌⊎◌, inl, inr, Bool-cases, refl, arith, ltb, ok, aborted,
  add64,
}
use zeldar.Hook.Context.{trampoline_size}
use zeldar.Hook.Install.{
  hook_pool_size, hook_max, trampoline_alloc_fail, Trampoline, alloc_for_trampoline,
}

-- The slot with the index `next`.
abbrev slot_at : ℕ → ℕ → ℕ → Trampoline
slot_at ro rw_view next = record {
  rx = add64 ro (next * (trampoline_size * 4));
  rw = add64 rw_view (next * (trampoline_size * 4));
}

-- Each index up to `HookMax` gets a slot of its own behind the one before, in both views of a pool
-- below the end of the address space. The slot lies inside the pool for the indices below
-- `HookMax`, and for these only: the slot of `HookMax` itself is handed out and does not. A greater
-- index aborts.
pub alloc_for_trampoline_slots :
    (ro rw_view next : ℕ)
    → ro + 2 * hook_pool_size ≤ 2 ^ 64
    → rw_view + 2 * hook_pool_size ≤ 2 ^ 64
    → ((next ≤ hook_max)
        × ((t : Trampoline) × (alloc_for_trampoline ro rw_view next ≡ ok (t, next + 1))
            × (t.rx ≡ ro + next * 200)
            × (t.rw ≡ rw_view + next * 200)
            × ((t.rx + 200 ≤ ro + hook_pool_size) ↔ (next < hook_max))))
      ⊎ ((hook_max < next) × (alloc_for_trampoline ro rw_view next ≡ aborted trampoline_alloc_fail))
unfolding alloc_for_trampoline
alloc_for_trampoline_slots ro rw_view next below below' = elim (Bool-cases (ltb hook_max next)) [
  | inl more ↦ inr (ground arith, rw more refl)
  | inr left ↦
      let le : next ≤ hook_max = ground arith in
      inl (
        le,
        (
          slot_at ro rw_view next,
          rw left refl,
          omega arith,
          omega arith,
          (λ h. omega arith, λ h. omega arith),
        ),
      )
]
