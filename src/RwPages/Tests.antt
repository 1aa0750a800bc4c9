-- ===== src/RwPages/Tests.antt =====
-- One claim of src/lib/util/sys/rw_pages.hpp.
use zeldar.Base.{
  ℕ, ◌+◌, ◌-◌, ◌^◌, ◌*◌, ◌⊎◌, inl, inr, ltb, Bool-cases, if◌then◌else◌, ◌/◌, ◌≤◌, ◌<◌, ◌≡◌, ◌↔◌,
  refl, ap, arith, true, false, ok,
}
use zeldar.Virtmem.{MemRegion, Virtmem, Reply, value, failed, MemoryInfo}
use zeldar.RwPages.Ranges.{Created, create_rw_pages}
use zeldar.RwPages.{get_aligned_size, Claim, ro_to_rw, rw_to_ro, in_ro, in_rw}
use zeldar.RwPages.Views.{ro_to_rw-rw_to_ro, in_ro-in_rw}

abbrev one_page : Claim
one_page = record { ro = 0x8000; rw_view = 0x20000; size = 0x1000 }

abbrev sixteen : ℕ
sixteen = 0x10

ro_to_rw-rw_to_ro_example :
    (ro_to_rw one_page 0x8010 ≡ 0x1fff0)
    × (rw_to_ro one_page 0x20010 ≡ 0x7ff0)
    × ((ro_to_rw one_page 0x8010 ≡ 0x20010) ↔ ((sixteen ≡ 0) ⊎ (sixteen ≡ 2 ^ 63)))
    × (ro_to_rw one_page (rw_to_ro one_page 0x10) ≡ 0x10)
ro_to_rw-rw_to_ro_example =
    ro_to_rw-rw_to_ro one_page 0x10 (omega arith) (omega arith) (omega arith)

in_ro-in_rw_example :
    ((in_ro one_page 0x8010 ≡ true)
      ↔ ((0x8010 ≤ one_page.ro) × (one_page.ro < 0x8010 + one_page.size)))
    × ((in_rw one_page 0x8010 ≡ true)
        ↔ ((0x8010 ≤ one_page.rw_view) × (one_page.rw_view < 0x8010 + one_page.size)))
in_ro-in_rw_example =
    in_ro-in_rw one_page 0x8010 (omega arith) (omega arith) (omega arith) (omega arith)

-- A kernel that answers page by page, and maps what it is asked for.
abbrev by_page : ℕ → Reply MemoryInfo
by_page a = value (record { addr = a / 0x1000 * 0x1000; size = 0x1000; unmapped = false })

abbrev pub always_maps : ℕ → ℕ → ℕ → Reply (Unit {0})
always_maps rw_addr address part = value tt

abbrev addr_of : Reply MemoryInfo → ℕ
addr_of (value info) = info.addr
addr_of (failed rc) = 0

abbrev size_of : Reply MemoryInfo → ℕ
size_of (value info) = info.size
size_of (failed rc) = 0

-- The pages of the module, and free blocks behind them.
abbrev pub module_and_free : ℕ → Reply MemoryInfo
module_and_free a =
    if ltb a 0x20000
    then by_page a
    else value (record {
      addr = 0x20000 + (a - 0x20000) / 2 ^ 40 * 2 ^ 40;
      size = 2 ^ 40;
      unmapped = true;
    })

pub module_and_free-next :
    (a : ℕ) (info next : MemoryInfo)
    → module_and_free a ≡ value info
    → module_and_free (info.addr + info.size) ≡ value next
    → next.addr ≡ info.addr + info.size
module_and_free-next a info next h k =
    let at = ap addr_of h in let large = ap size_of h in let at' = ap addr_of k in ground arith

pub module_and_free-answers : (b : ℕ) → (m : MemoryInfo) × (module_and_free b ≡ value m)
module_and_free-answers b = elim (Bool-cases (ltb b 0x20000)) [
  | inl h ↦ (record { addr = b / 0x1000 * 0x1000; size = 0x1000; unmapped = false }, rw h refl)
  | inr h ↦ (
    record { addr = 0x20000 + (b - 0x20000) / 2 ^ 40 * 2 ^ 40; size = 2 ^ 40; unmapped = true },
    rw h refl,
  )
]

abbrev low : MemRegion
low = record { start = 0x1000; end = 0x2000 }

abbrev pub aslr : MemRegion
aslr = record { start = 0x40000; end = 0x90000 }

-- One reservation, at the address 0x40.
abbrev pub space : Virtmem
space = record {
  alias_region = low;
  heap_region = low;
  aslr_region = aslr;
  stack_region = aslr;
  reservations = 0x40;
  is_legacy_kernel = false;
  nodes = λ a. record { next = 0; prev = 0; region = low };
}

abbrev pub counting : ℕ → ℕ
counting i = i

-- The search takes the fifth page of the region.
created :
    (r : Created) × (create_rw_pages counting module_and_free always_maps 1 5 0x2000 0x80 space
        0x10ff8 20 0
      ≡ ok r)
    × (r.pages.claim.rw_view ≡ 0x45ff8)
unfolding create_rw_pages get_aligned_size
created = (_, refl, refl)
