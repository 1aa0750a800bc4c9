-- ===== src/RwPages/Ranges.antt =====
-- The ranges of the kernel that two views of pages are mapped and unmapped by, src/lib/util/sys/rw_pages.cpp.
use zeldar.Base.{
  ℕ, zero, suc, ◌==◌, Bool, true, false, Option, none, some, List, [], ◌∷◌, map, min, max, ltb, not,
  if◌then◌else◌, add64, sub64, Outcome, ok, aborted, out_of_fuel, ◌>>=◌, ◌>>◌, exl_assert,
}
use zeldar.Caches.{Effect, dcache_flush, icache_invalidate}
use zeldar.Virtmem.{
  Reply, value, failed, MemoryInfo, Virtmem, virtmem_add_reservation, virtmem_remove_reservation,
}
use zeldar.Virtmem.Find.{virtmem_find_aslr}
use zeldar.RwPages.{Claim, get_aligned_ro, get_aligned_rw, get_aligned_size}

-- The arguments of the callback of `ForEachMemRange`.
pub record MapCall : Type 0 where
  pub address : ℕ
  pub size : ℕ
  pub offset : ℕ

-- The call for one answer.
unfoldable pub map_call : (start end : ℕ) → MemoryInfo → MapCall
map_call start end info =
    let offset = sub64 (max info.addr start) start in
    let current = add64 start offset in
    record {
      address = current;
      size = sub64 (min end (add64 info.addr info.size)) current;
      offset = offset;
    }

-- `R_ABORT_UNLESS`.
unfoldable pub abort_unless {ℓ} : {A : Type ℓ} → Reply A → Outcome A
abort_unless (value a) = ok a
abort_unless (failed rc) = aborted rc

module _ (query : ℕ → Reply MemoryInfo) (callback : MapCall → Reply (Unit {0})) where
  -- The loop, from where the last answer ended; the result is the calls that were made.
  unfoldable pub ranges_loop : ℕ → (start end : ℕ) → ℕ → Outcome (List MapCall)
  unfolding map_call abort_unless
  ranges_loop zero start end at = out_of_fuel
  ranges_loop (suc fuel) start end at = abort_unless (query at) >>= λ info.
      let call = map_call start end info in
      let next = add64 info.addr info.size in
      let rest = ranges_loop fuel start end next >>= λ calls. ok (call ∷ calls) in
      abort_unless (callback call) >>= λ done. if ltb next end then rest else ok (call ∷ [])

  -- `ForEachMemRange`.
  unfoldable pub for_each_mem_range : ℕ → (start length : ℕ) → Outcome (List MapCall)
  unfolding ranges_loop
  for_each_mem_range fuel start length = ranges_loop fuel start (add64 start length) (add64 start 0)

-- A part of a view, as `svcMapProcessMemory` and `svcUnmapProcessMemory` take it: the writable
-- address, the address and the size.
abbrev pub map_part : (ℕ → ℕ → ℕ → Reply (Unit {0})) → ℕ → MapCall → Reply (Unit {0})
map_part process_memory aligned_rw call =
    process_memory (add64 aligned_rw call.offset) call.address call.size

-- The arguments of the calls for the parts of a view.
abbrev pub parts : ℕ → List MapCall → List (ℕ × ℕ × ℕ)
parts aligned_rw calls = map (λ call. (add64 aligned_rw call.offset, call.address, call.size)) calls

-- The constructor. `aligned_rw` is what `virtmemFindAslr` gave for the aligned size and `reserve`
-- what `virtmemAddReservation` gave; `same` is the result of the comparison of the two views.
unfoldable pub rw_pages :
    (query : ℕ → Reply MemoryInfo)
    → (map_memory : ℕ → ℕ → ℕ → Reply (Unit {0})) → (fuel ro size aligned_rw reserve same : ℕ)
    → Outcome (Claim × List MapCall)
unfolding for_each_mem_range get_aligned_ro get_aligned_size
rw_pages query map_memory fuel ro size aligned_rw reserve same = do
  let found : Claim = record { ro = ro; rw_view = 0; size = size }
  exl_assert (not (aligned_rw == 0))
  exl_assert (not (reserve == 0))
  calls ←
      for_each_mem_range query (map_part map_memory aligned_rw) fuel (get_aligned_ro found)
        (get_aligned_size found)
  exl_assert (same == 0)
  ok (record found { rw_view = add64 aligned_rw (sub64 ro (get_aligned_ro found)) }, calls)

-- `Flush`, which names the writable view for both caches.
unfoldable pub flush : Claim → List Effect
unfolding get_aligned_rw get_aligned_size
flush c =
    dcache_flush (get_aligned_rw c) (get_aligned_size c)
    ∷ icache_invalidate (get_aligned_rw c) (get_aligned_size c)
    ∷ []

-- The calls for the caches in the destructor.
abbrev pub flush_all : Claim → List Effect
flush_all c = dcache_flush c.rw_view c.size ∷ icache_invalidate c.ro c.size ∷ []

-- The destructor, with the reservation at `reserve` of the list in `v`: only the owner unmaps. The
-- result has the calls for the caches, those that unmap, and the list.
unfoldable pub destroy_rw_pages :
    (query : ℕ → Reply MemoryInfo)
    → (unmap_memory : ℕ → ℕ → ℕ → Reply (Unit {0})) → (fuel : ℕ) → Claim
    → (owner : Bool) → (reserve : ℕ) → Virtmem
    → Outcome (List Effect × List (ℕ × ℕ × ℕ) × Virtmem)
unfolding for_each_mem_range get_aligned_ro get_aligned_rw get_aligned_size
    virtmem_remove_reservation
destroy_rw_pages query unmap_memory fuel c owner reserve v =
    if owner
    then (for_each_mem_range query (map_part unmap_memory (get_aligned_rw c)) fuel
          (get_aligned_ro c) (get_aligned_size c)
        >>= λ calls.
            ok (flush_all c, parts (get_aligned_rw c) calls, virtmem_remove_reservation reserve v))
    else ok ([], [], v)

-- An object with its claim and whether it owns it.
pub record Pages : Type 0 where
  pub claim : Claim
  pub owner : Bool

abbrev pub no_claim : Claim
no_claim = record { ro = 0; rw_view = 0; size = 0 }

-- The move constructor: the new object, and the old one after it.
unfoldable pub move_construct : Pages → Pages × Pages
move_construct other = (
  record { claim = other.claim; owner = other.owner },
  record { claim = no_claim; owner = false },
)

-- The move assignment, which leaves the owner flag of the target.
unfoldable pub move_assign : Pages → Pages → Pages × Pages
move_assign self other =
    (record self { claim = other.claim }, record { claim = no_claim; owner = false })

-- A new object with the calls that mapped it, its reservation and the list of reservations.
pub record Created : Type 0 where
  pub pages : Pages
  pub calls : List MapCall
  pub virtmem : Virtmem

-- A null pointer for no address.
abbrev pub pointer : Option ℕ → ℕ
pointer none = 0
pointer (some a) = a

-- The constructor with what it calls of virtmem.c: the range of the writable view is searched for, and
-- reserved at `reserve`, the address that `malloc` gives. `rounds` are those of the search.
unfoldable pub create_rw_pages :
    (rng : ℕ → ℕ) (query : ℕ → Reply MemoryInfo) (map_memory : ℕ → ℕ → ℕ → Reply (Unit {0}))
    (rounds draws fuel reserve : ℕ)
    → Virtmem
    → (ro size same : ℕ) → Outcome Created
unfolding virtmem_find_aslr virtmem_add_reservation rw_pages get_aligned_size
create_rw_pages rng query map_memory rounds draws fuel reserve v ro size same = do
  let aligned_size = get_aligned_size (record { ro = ro; rw_view = 0; size = size })
  found ← virtmem_find_aslr rng query v rounds aligned_size 0 draws
  (claim, calls) ← rw_pages query map_memory fuel ro size (pointer found) reserve same
  ok (record {
    pages = record { claim = claim; owner = true };
    calls = calls;
    virtmem = virtmem_add_reservation reserve (pointer found) aligned_size v;
  })
