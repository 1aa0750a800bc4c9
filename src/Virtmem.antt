-- ===== src/Virtmem.antt =====
-- The free address ranges of the process, src/lib/nx/kernel/virtmem.c. The kernel's answers and the
-- random numbers are parameters. Addresses are patterns of 64 bits, and 0 is the null pointer.
pub mod Find
pub mod Reserved
pub mod Search
pub mod Chain
pub mod Remove
mod Tests
use zeldar.Base.{
  ◌%◌, ℕ, zero, suc, ◌+◌, ◌-◌, ◌*◌, ◌^◌, Bool, true, false, not, ◌&&◌, ◌||◌, if◌then◌else◌, ltb,
  leb, ◌==◌, add64, sub64, Outcome, ok, aborted, ◌>>=◌, ◌>>◌,
}

-- `MemRegion`.
pub record MemRegion : Type 0 where
  pub start : ℕ
  pub end : ℕ

-- `VirtmemReservation`, at an address.
pub record VirtmemReservation : Type 0 where
  pub next : ℕ
  pub prev : ℕ
  pub region : MemRegion

-- The file's static variables, and the reservations in memory.
pub record Virtmem : Type 0 where
  pub alias_region : MemRegion
  pub heap_region : MemRegion
  pub aslr_region : MemRegion
  pub stack_region : MemRegion
  pub reservations : ℕ
  pub is_legacy_kernel : Bool
  pub nodes : ℕ → VirtmemReservation

-- The part of `MemoryInfo` that is read.
pub record MemoryInfo : Type 0 where
  pub addr : ℕ
  pub size : ℕ
  pub unmapped : Bool

-- What a system call gives: its value, or a result that is not zero.
pub data Reply {ℓ} (A : Type ℓ) : Type ℓ where
  value : A → Reply A
  failed : ℕ → Reply A

pub data InfoType : Type 0 where
  alias_region_address : InfoType
  alias_region_size : InfoType
  heap_region_address : InfoType
  heap_region_size : InfoType
  aslr_region_address : InfoType
  aslr_region_size : InfoType
  stack_region_address : InfoType
  stack_region_size : InfoType

-- `MAKERESULT`, and the results that this file gives and tests.
abbrev pub make_result : ℕ → ℕ → ℕ
make_result mod_id description = mod_id + description * 2 ^ 9

abbrev pub bad_query_memory : ℕ
bad_query_memory = make_result 345 6

abbrev pub weird_kernel : ℕ
weird_kernel = make_result 345 36

abbrev pub bad_get_info_heap : ℕ
bad_get_info_heap = make_result 345 5

abbrev pub bad_get_info_stack : ℕ
bad_get_info_stack = make_result 345 4

abbrev pub invalid_memory_state : ℕ
invalid_memory_state = make_result 1 106

abbrev pub invalid_memory_range : ℕ
invalid_memory_range = make_result 1 110

-- The result and the region after the call: the region changes when both calls succeed.
unfoldable pub memregion_init_with_info :
    (InfoType → Reply ℕ) → MemRegion → InfoType → InfoType → Reply MemRegion
memregion_init_with_info get_info r id0_addr id0_sz = elim (get_info id0_addr) [
  | failed rc ↦ failed rc
  | value base ↦ elim (get_info id0_sz) [
    | failed rc ↦ failed rc
    | value size ↦ value (record { start = base; end = add64 base size })
  ]
]

abbrev pub memregion_init_hardcoded : ℕ → ℕ → MemRegion
memregion_init_hardcoded start end = record { start = start; end = end }

-- A region that the kernel has to give.
unfoldable pub required_region : ℕ → Reply MemRegion → Outcome MemRegion
required_region rc (value r) = ok r
required_region rc (failed rc') = aborted rc

-- `virtmemSetup`; `unmap` is the result of the probing `svcUnmapMemory`.
unfoldable pub legacy_regions : ℕ → Outcome (MemRegion × MemRegion)
legacy_regions unmap =
    if unmap == invalid_memory_state
    then ok (
      memregion_init_hardcoded 0x200000 0x100000000,
      memregion_init_hardcoded 0x200000 0x40000000,
    )
    else if unmap == invalid_memory_range
    then ok (
      memregion_init_hardcoded 0x8000000 0x1000000000,
      memregion_init_hardcoded 0x8000000 0x80000000,
    )
    else aborted weird_kernel

module _ (get_info : InfoType → Reply ℕ) (unmap : ℕ) where
  unfoldable pub setup_aslr : Virtmem → Outcome Virtmem
  unfolding memregion_init_with_info required_region legacy_regions
  setup_aslr v =
      elim (memregion_init_with_info get_info v.aslr_region InfoType.aslr_region_address
        InfoType.aslr_region_size) [
          | value aslr ↦ do
            stack ← required_region bad_get_info_stack (
                memregion_init_with_info get_info v.stack_region InfoType.stack_region_address
                  InfoType.stack_region_size)
            ok (record v { aslr_region = aslr; stack_region = stack })
          | failed rc ↦ do
            (aslr, stack) ← legacy_regions (unmap % 2 ^ 22)
            ok (record v { aslr_region = aslr; stack_region = stack; is_legacy_kernel = true })
        ]

  unfoldable pub virtmem_setup : Virtmem → Outcome Virtmem
  unfolding memregion_init_with_info required_region setup_aslr
  virtmem_setup v = do
    alias ← required_region weird_kernel (
        memregion_init_with_info get_info v.alias_region InfoType.alias_region_address
          InfoType.alias_region_size)
    heap ← required_region bad_get_info_heap (
        memregion_init_with_info get_info v.heap_region InfoType.heap_region_address
          InfoType.heap_region_size)
    setup_aslr (record v { alias_region = alias; heap_region = heap })

-- A write of one reservation.
abbrev pub store_node : ℕ → VirtmemReservation → (ℕ → VirtmemReservation) → ℕ → VirtmemReservation
store_node a node nodes b = if b == a then node else nodes b

abbrev pub set_prev : ℕ → ℕ → (ℕ → VirtmemReservation) → ℕ → VirtmemReservation
set_prev a p nodes = store_node a (record (nodes a) { prev = p }) nodes

abbrev pub set_next : ℕ → ℕ → (ℕ → VirtmemReservation) → ℕ → VirtmemReservation
set_next a n nodes = store_node a (record (nodes a) { next = n }) nodes

-- `virtmemAddReservation`; `rv` is what `malloc` returned.
unfoldable pub virtmem_add_reservation : ℕ → ℕ → ℕ → Virtmem → Virtmem
virtmem_add_reservation rv mem size v =
    let node : VirtmemReservation = record {
      next = v.reservations;
      prev = 0;
      region = record { start = mem; end = add64 mem size };
    } in
    let nodes = store_node rv node v.nodes in
    if rv == 0 then v else record v {
      reservations = rv;
      nodes = if v.reservations == 0 then nodes else set_prev v.reservations rv nodes;
    }

-- `virtmemRemoveReservation`. Nothing refers to the reservation that is freed.
unfoldable pub virtmem_remove_reservation : ℕ → Virtmem → Virtmem
virtmem_remove_reservation rv v =
    let next = (v.nodes rv).next in
    let prev = (v.nodes rv).prev in
    let nodes = if next == 0 then v.nodes else set_prev next prev v.nodes in
    if prev == 0
    then record v { reservations = next; nodes = nodes }
    else record v { nodes = set_next prev next nodes }
