-- ===== src/MemLayout/Ranges.antt =====
-- `InferAslrAndStack` of src/lib/util/sys/mem_layout.cpp against `virtmemSetup` of
-- src/lib/nx/kernel/virtmem.c, which probes the kernel in the same way.
use zeldar.Base.{ℕ, ◌+◌, ◌%◌, ◌^◌, ◌≡◌, ◌⊎◌, inl, inr, refl, ◌==◌, ok, aborted, Bool-cases}
use zeldar.Virtmem.{
  value, failed, MemRegion, legacy_regions, weird_kernel, invalid_memory_state,
  invalid_memory_range,
}
use zeldar.MemLayout.{Range, get_end, infer_aslr_and_stack}

-- A range that takes the end of a region for its size.
unfoldable pub HasEndAsSize : Range → MemRegion → Type 0
HasEndAsSize range region =
    (range.start ≡ region.start)
    × (range.size ≡ region.end)
    × (get_end range ≡ region.end + region.start)

-- Both ways of probing the kernel know the same two answers. For these the ranges start where the
-- regions do and have the ends of the regions for their sizes, so that each ends behind its region by
-- its start; for every other answer both fail.
pub infer_aslr_and_stack-legacy_regions :
    (unmap : ℕ)
    → ((aslr : Range) × (stack : Range) × (aslr' : MemRegion) × (stack' : MemRegion)
        × (infer_aslr_and_stack unmap ≡ value (aslr, stack))
        × (legacy_regions (unmap % 2 ^ 22) ≡ ok (aslr', stack'))
        × HasEndAsSize aslr aslr'
        × HasEndAsSize stack stack')
      ⊎ ((infer_aslr_and_stack unmap ≡ failed weird_kernel)
          × (legacy_regions (unmap % 2 ^ 22) ≡ aborted weird_kernel))
unfolding infer_aslr_and_stack legacy_regions HasEndAsSize get_end
infer_aslr_and_stack-legacy_regions unmap =
    let rc = unmap % 2 ^ 22 in
    elim (Bool-cases (rc == invalid_memory_state)) [
      | inl e ↦ rw e (inl (_, _, _, _, refl, refl, (refl, refl, refl), (refl, refl, refl)))
      | inr e ↦ elim (Bool-cases (rc == invalid_memory_range)) [
        | inl k ↦ rw (e, k) (inl (_, _, _, _, refl, refl, (refl, refl, refl), (refl, refl, refl)))
        | inr k ↦ rw (e, k) (inr (refl, refl))
      ]
    ]
