-- ===== src/Virtmem/Tests.antt =====
-- The search of src/lib/nx/kernel/virtmem.c in an empty address space.
use zeldar.Base.{[], ◌∷◌, ℕ, ◌^◌, refl, arith, true, false}
use zeldar.Virtmem.Remove.{virtmem_remove_reservation-IsChain}
use zeldar.Virtmem.{
  virtmem_remove_reservation, virtmem_add_reservation, MemRegion, Virtmem, MemoryInfo, Reply, value,
}
use zeldar.Virtmem.Chain.{IsFresh, IsChain, virtmem_add_reservation-IsChain}

abbrev low : MemRegion
low = record { start = 0x1000; end = 0x2000 }

abbrev aslr : MemRegion
aslr = record { start = 0x10000; end = 0x90000 }

-- One reservation, at the address 0x40.
abbrev empty_space : Virtmem
empty_space = record {
  alias_region = low;
  heap_region = low;
  aslr_region = aslr;
  stack_region = aslr;
  reservations = 0x40;
  is_legacy_kernel = false;
  nodes = λ a. record { next = 0; prev = 0; region = low };
}

abbrev counting : ℕ → ℕ
counting i = i

abbrev all_unmapped : ℕ → Reply MemoryInfo
all_unmapped a = value (record { addr = 0; size = 2 ^ 40; unmapped = true })

virtmem_add_reservation-IsChain_example :
    let v' = virtmem_add_reservation 0x80 0x30000 0x1000 empty_space in
    IsChain v'.nodes 0 v'.reservations (0x80 ∷ 0x40 ∷ [])
unfolding IsChain IsFresh
virtmem_add_reservation-IsChain_example =
    virtmem_add_reservation-IsChain empty_space 0x80 0x30000 0x1000 (0x40 ∷ []) (λ e. omega arith)
      (λ e. omega arith, tt) (refl, λ e. omega arith, tt, refl, refl)

abbrev two_reservations : Virtmem
two_reservations = virtmem_add_reservation 0x80 0x30000 0x1000 empty_space

two_reservations-IsChain :
    IsChain two_reservations.nodes 0 two_reservations.reservations (0x80 ∷ 0x40 ∷ [])
unfolding IsChain IsFresh
two_reservations-IsChain =
    virtmem_add_reservation-IsChain empty_space 0x80 0x30000 0x1000 (0x40 ∷ []) (λ e. omega arith)
      (λ e. omega arith, tt) (refl, λ e. omega arith, tt, refl, refl)

virtmem_remove_reservation-IsChain_example :
    let v' = virtmem_remove_reservation 0x40 two_reservations in
    IsChain v'.nodes 0 v'.reservations (0x80 ∷ [])
virtmem_remove_reservation-IsChain_example =
    virtmem_remove_reservation-IsChain two_reservations 0x40 (0x80 ∷ []) [] two_reservations-IsChain
