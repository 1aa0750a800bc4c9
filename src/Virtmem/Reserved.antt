-- ===== src/Virtmem/Reserved.antt =====
-- The walk over the reservations of src/lib/nx/kernel/virtmem.c.
use zeldar.Base.{
  ℕ, zero, suc, ◌≡◌, ◌≢◌, ◌⊎◌, inl, inr, refl, arith, Bool, true, false, Bool-cases, ok, ◌==◌,
}
use zeldar.Virtmem.{VirtmemReservation}
use zeldar.Virtmem.Find.{memregion_overlaps, reserved_loop}

-- The reservations that the list from `rv` holds.
pub data IsListed (nodes : ℕ → VirtmemReservation) : ℕ → ℕ → Type 0 where
  here : {rv : ℕ} → rv ≢ 0 → IsListed nodes rv rv
  there : {rv h : ℕ} → rv ≢ 0 → IsListed nodes (nodes rv).next h → IsListed nodes rv h

-- The list from `rv` reaches the null pointer within `n` steps.
unfoldable pub Ends : (ℕ → VirtmemReservation) → ℕ → ℕ → Type 0
Ends nodes zero rv = rv ≡ 0
Ends nodes (suc n) rv = (rv ≡ 0) ⊎ Ends nodes n (nodes rv).next

pub is_null : (rv : ℕ) → (rv ≡ 0) ⊎ (rv ≢ 0)
is_null zero = inl refl
is_null (suc n) = inr (λ e. omega arith)

pub reserved_loop-IsListed :
    (nodes : ℕ → VirtmemReservation) (fuel rv start end h : ℕ)
    → reserved_loop fuel nodes rv start end ≡ ok false
    → IsListed nodes rv h
    → memregion_overlaps (nodes h).region start end ≡ false
unfolding reserved_loop
reserved_loop-IsListed nodes zero rv start end h e (here ne) = ground arith
reserved_loop-IsListed nodes zero rv start end h e (there ne l) = ground arith
reserved_loop-IsListed nodes (suc fuel) rv start end h e (here ne) = ground arith
reserved_loop-IsListed nodes (suc fuel) rv start end h e (there ne l) =
    ground (arith, reserved_loop-IsListed nodes fuel (nodes rv).next start end h)

pub reserved_loop-ok :
    (nodes : ℕ → VirtmemReservation) (fuel rv start end : ℕ)
    → Ends nodes fuel rv
    → (b : Bool) × (reserved_loop fuel nodes rv start end ≡ ok b)
unfolding reserved_loop Ends
reserved_loop-ok nodes zero rv start end e = (false, rw e refl)
reserved_loop-ok nodes (suc fuel) rv start end (inl e) = (false, rw e refl)
reserved_loop-ok nodes (suc fuel) rv start end (inr e) =
    let (b, runs) = reserved_loop-ok nodes fuel (nodes rv).next start end e in
    elim (Bool-cases (rv == 0)) [
      | inl h ↦ (false, rw h refl)
      | inr h ↦ elim (Bool-cases (memregion_overlaps (nodes rv).region start end)) [
        | inl h' ↦ (true, rw (h, h') refl)
        | inr h' ↦ (b, rw (h, h') runs)
      ]
    ]
