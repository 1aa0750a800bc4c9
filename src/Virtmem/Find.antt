-- ===== src/Virtmem/Find.antt =====
-- `_memregionFindRandom` of src/lib/nx/kernel/virtmem.c.
use zeldar.Base.{
  ℕ, zero, suc, ◌+◌, ◌-◌, ◌*◌, ◌/◌, ◌%◌, ◌^◌, Bool, true, false, not, ◌&&◌, ◌||◌, Option, none,
  some, if◌then◌else◌, ltb, leb, ◌==◌, bit_and, add64, sub64, Outcome, ok, aborted, out_of_fuel,
  ◌>>=◌,
}
use zeldar.Virtmem.{
  MemRegion, VirtmemReservation, Virtmem, MemoryInfo, Reply, value, failed, bad_query_memory,
}

abbrev pub random_max_attempts : ℕ
random_max_attempts = 0x200

abbrev pub memregion_is_inside : MemRegion → ℕ → ℕ → Bool
memregion_is_inside r start end = leb r.start start && leb end r.end

abbrev pub memregion_overlaps : MemRegion → ℕ → ℕ → Bool
memregion_overlaps r start end = ltb start r.end && ltb r.start end

-- `query` is `svcQueryMemory`. No caller asks for `out_end`.
unfoldable pub memregion_is_mapped : (ℕ → Reply MemoryInfo) → ℕ → ℕ → ℕ → Outcome Bool
memregion_is_mapped query start end guard = elim (query (sub64 start guard)) [
  | failed rc ↦ aborted bad_query_memory
  | value meminfo ↦
      ok (not meminfo.unmapped || ltb (add64 meminfo.addr meminfo.size) (add64 end guard))
]

-- The loop over the reservations from `rv`, which is the null pointer at the end.
unfoldable pub reserved_loop : ℕ → (ℕ → VirtmemReservation) → ℕ → ℕ → ℕ → Outcome Bool
reserved_loop zero nodes rv start end = if rv == 0 then ok false else out_of_fuel
reserved_loop (suc fuel) nodes rv start end =
    let rest = reserved_loop fuel nodes (nodes rv).next start end in
    if rv == 0
    then ok false
    else if memregion_overlaps (nodes rv).region start end
    then ok true
    else rest

unfoldable pub memregion_is_reserved : ℕ → Virtmem → ℕ → ℕ → ℕ → Outcome Bool
unfolding reserved_loop
memregion_is_reserved fuel v start end guard =
    reserved_loop fuel v.nodes v.reservations (sub64 start guard) (add64 end guard)

-- `(n + 0xFFF) &~ 0xFFF`.
abbrev pub page_align : ℕ → ℕ
page_align n = bit_and (add64 n 0xfff) (2 ^ 64 - 1 - 0xfff)

-- `rng i` is the random number that is drawn after `i` others.
module _ (rng : ℕ → ℕ) (query : ℕ → Reply MemoryInfo) (v : Virtmem) where
  abbrev pub draw : MemRegion → ℕ → ℕ → ℕ
  draw r size i = add64 r.start (rng i % (sub64 (sub64 r.end r.start) size / 2 ^ 12 + 1) * 2 ^ 12)

  abbrev pub is_avoided : ℕ → ℕ → Bool
  is_avoided size cur_addr =
      memregion_overlaps v.alias_region cur_addr (add64 cur_addr size)
      || memregion_overlaps v.heap_region cur_addr (add64 cur_addr size)

  -- The inner loop: the address, and the number of draws so far.
  unfoldable pub draw_loop : ℕ → MemRegion → ℕ → ℕ → Outcome (ℕ × ℕ)
  draw_loop zero r size i = out_of_fuel
  draw_loop (suc fuel) r size i =
      let rest = draw_loop fuel r size (i + 1) in
      let cur_addr = draw r size i in
      if is_avoided size cur_addr then rest else ok (cur_addr, i + 1)

  -- Whether the range at an address is free.
  unfoldable pub is_taken : ℕ → ℕ → ℕ → ℕ → Outcome Bool
  unfolding memregion_is_mapped memregion_is_reserved
  is_taken fuel size guard_size cur_addr = do
    mapped ← memregion_is_mapped query cur_addr (add64 cur_addr size) guard_size
    (if mapped
        then ok true
        else memregion_is_reserved fuel v cur_addr (add64 cur_addr size) guard_size)

  -- `attempts` rounds of the outer loop; `none` is `NULL`.
  unfoldable pub attempt_loop : ℕ → ℕ → MemRegion → ℕ → ℕ → ℕ → Outcome (Option ℕ)
  unfolding draw_loop is_taken
  attempt_loop fuel zero r size guard_size i = ok none
  attempt_loop fuel (suc attempts) r size guard_size i =
      draw_loop fuel r size i >>= λ (cur_addr, i').
      let rest = attempt_loop fuel attempts r size guard_size i' in
      is_taken fuel size guard_size cur_addr >>= λ taken.
      (if taken then rest else ok (some cur_addr))

  unfoldable pub memregion_find_random : ℕ → MemRegion → ℕ → ℕ → ℕ → Outcome (Option ℕ)
  unfolding attempt_loop
  memregion_find_random fuel r size guard_size i =
      if ltb (sub64 r.end r.start) (page_align size)
      then ok none
      else attempt_loop fuel random_max_attempts r (page_align size) (page_align guard_size) i

  unfoldable pub virtmem_find_aslr : ℕ → ℕ → ℕ → ℕ → Outcome (Option ℕ)
  unfolding memregion_find_random
  virtmem_find_aslr fuel size guard_size i =
      memregion_find_random fuel v.aslr_region size guard_size i

  unfoldable pub virtmem_find_stack : ℕ → ℕ → ℕ → ℕ → Outcome (Option ℕ)
  unfolding memregion_find_random
  virtmem_find_stack fuel size guard_size i =
      memregion_find_random fuel v.stack_region size guard_size i

  unfoldable pub virtmem_find_code_memory : ℕ → ℕ → ℕ → ℕ → Outcome (Option ℕ)
  unfolding memregion_find_random
  virtmem_find_code_memory fuel size guard_size i =
      memregion_find_random fuel (if v.is_legacy_kernel then v.stack_region else v.aslr_region) size
        guard_size i
