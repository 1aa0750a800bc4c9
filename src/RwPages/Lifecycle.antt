-- ===== src/RwPages/Lifecycle.antt =====
-- The whole life of the two views of src/lib/util/sys/rw_pages.cpp: the constructor with the search and
-- the reservation of src/lib/nx/kernel/virtmem.c, and the destructor.
use zeldar.Base.{
  ℕ, ◌+◌, ◌*◌, ◌/◌, ◌%◌, ◌≤◌, ◌<◌, ◌^◌, ◌≡◌, ◌≢◌, ◌⊎◌, inl, inr, refl, sym, ap, ◌∙◌, arith, true,
  Option, none, some, List, [], ◌∷◌, add64, Outcome, ok, aborted, assertion, fault, out_of_fuel,
  ◌>>=◌,
}
use mathlib.Core.Path.{fun_ext}
use zeldar.Virtmem.{
  Reply, value, MemoryInfo, Virtmem, virtmem_add_reservation, virtmem_remove_reservation,
}
use zeldar.Virtmem.Find.{page_align, virtmem_find_aslr}
use zeldar.Virtmem.Reserved.{Ends, is_null}
use zeldar.Virtmem.Search.{
  HasDraw, IsFound, IsAnswer, page_align_lem, memregion_find_random-IsAnswer,
}
use zeldar.Virtmem.Chain.{is_null-false, IsFresh, IsChain, virtmem_add_reservation-IsChain}
use zeldar.Virtmem.Remove.{virtmem_remove_reservation-IsChain}
use zeldar.RwPages.{Claim, align_down, align_up, get_aligned_ro, get_aligned_rw, get_aligned_size}
use zeldar.RwPages.Ranges.{
  MapCall, map_part, parts, for_each_mem_range, rw_pages, flush_all, destroy_rw_pages, Created,
  pointer, create_rw_pages,
}
use zeldar.RwPages.Cover.{IsMap, IsMapped, rw_pages-IsMapped}

-- A kernel that maps or unmaps what it is asked for.
abbrev pub Grants : (ℕ → ℕ → ℕ → Reply (Unit {0})) → Type 0
Grants process_memory = (rw_addr address part : ℕ) → process_memory rw_addr address part ≡ value tt

granted :
    (process_memory : ℕ → ℕ → ℕ → Reply (Unit {0})) (aligned_rw : ℕ)
    → Grants process_memory
    → map_part process_memory aligned_rw ≡ λ c. value tt
granted process_memory aligned_rw grants =
    fun_ext (λ c. grants (add64 aligned_rw c.offset) c.address c.size)

-- The calls do not depend on which of the two the kernel is asked for.
same_calls :
    (query : ℕ → Reply MemoryInfo) (map_memory unmap_memory : ℕ → ℕ → ℕ → Reply (Unit {0}))
    (a b fuel start length : ℕ)
    → Grants map_memory
    → Grants unmap_memory
    → for_each_mem_range query (map_part unmap_memory b) fuel start length
      ≡ for_each_mem_range query (map_part map_memory a) fuel start length
same_calls query map_memory unmap_memory a b fuel start length maps unmaps =
    ap (λ (f : MapCall → Reply (Unit {0})). for_each_mem_range query f fuel start length)
      (granted unmap_memory b unmaps ∙ sym (granted map_memory a maps))

aligned_view :
    (c : Claim) (ro aligned_rw : ℕ)
    → c.rw_view ≡ aligned_rw + ro % 0x1000
    → aligned_rw % 0x1000 ≡ 0
    → get_aligned_rw c ≡ aligned_rw
unfolding get_aligned_rw
aligned_view c ro aligned_rw view aligned = omega arith

range_lem :
    (size : ℕ) (c : Claim)
    → c.size ≡ size
    → 0 < size
    → size + 0x2000 < 2 ^ 64
    → 0x1000 ≤ page_align (get_aligned_size c)
unfolding get_aligned_size
range_lem size c same pos below = omega (arith, page_align_lem (get_aligned_size c))

bind_ok {ℓ κ} :
    {A : Type ℓ} {B : Type κ} (m : Outcome A) (f : A → Outcome B) {b : B}
    → (m >>= f) ≡ ok b
    → (a : A) × (m ≡ ok a) × (f a ≡ ok b)
bind_ok (ok a) f h = (a, refl, h)
bind_ok (aborted r) f h = cc
bind_ok assertion f h = cc
bind_ok fault f h = cc
bind_ok out_of_fuel f h = cc

calls_of : Outcome (Claim × List MapCall) → List MapCall
calls_of (ok (c, calls)) = calls
calls_of other = []

-- The calls by which a constructor that has returned mapped the view.
rw_pages-calls :
    (query : ℕ → Reply MemoryInfo) (map_memory : ℕ → ℕ → ℕ → Reply (Unit {0}))
    (fuel ro size aligned_rw reserve : ℕ) (c : Claim) (calls : List MapCall)
    → rw_pages query map_memory fuel ro size aligned_rw reserve 0 ≡ ok (c, calls)
    → aligned_rw ≢ 0
    → reserve ≢ 0
    → c.ro ≡ ro
    → c.size ≡ size
    → for_each_mem_range query
        (map_part map_memory aligned_rw)
        fuel
        (get_aligned_ro c)
        (get_aligned_size c)
      ≡ ok calls
unfolding rw_pages get_aligned_ro get_aligned_size calls_of
rw_pages-calls query map_memory fuel ro size aligned_rw reserve c calls built ne ne' same_ro
      same_size =
    let (calls', runs, made) =
      bind_ok
        (for_each_mem_range query (map_part map_memory aligned_rw) fuel (align_down ro)
          (align_up size))
        _ (rw (is_null-false aligned_rw ne, is_null-false reserve ne') at built) in
    rw (same_ro, same_size) (runs ∙ ap (λ o. ok (calls_of o)) made)

-- The claim before a range has been found, and the size of the range that is searched for.
abbrev asked : ℕ → ℕ → Claim
asked ro size = record { ro = ro; rw_view = 0; size = size }

abbrev pub range_size : ℕ → ℕ → ℕ
range_size ro size = page_align (get_aligned_size (asked ro size))

-- What the constructor leaves behind when the search has given `a`, and what the destructor makes
-- of it.
unfoldable pub IsOwned :
    (rng : ℕ → ℕ) (query : ℕ → Reply MemoryInfo) (unmap_memory : ℕ → ℕ → ℕ → Reply (Unit {0}))
    (fuel reserve : ℕ)
    → Virtmem
    → List ℕ
    → (ro size a : ℕ) → Created
    → Type 0
unfolding get_aligned_rw IsMapped
IsOwned rng query unmap_memory fuel reserve v hs ro size a r =
    IsFound rng query v v.aslr_region (range_size ro size) 0 a
    × (get_aligned_rw r.pages.claim ≡ a)
    × IsMapped ro size a r.pages.claim r.calls
    × IsChain r.virtmem.nodes 0 r.virtmem.reservations (reserve ∷ hs)
    × ((v' : Virtmem) × (destroy_rw_pages query unmap_memory fuel r.pages.claim r.pages.owner
            reserve r.virtmem
          ≡ ok (flush_all r.pages.claim, parts a r.calls, v'))
        × IsChain v'.nodes 0 v'.reservations hs)

module _ (rng : ℕ → ℕ) (query : ℕ → Reply MemoryInfo)
    (map_memory unmap_memory : ℕ → ℕ → ℕ → Reply (Unit {0})) (rounds draws fuel reserve : ℕ)
    (v : Virtmem) (hs : List ℕ) (ro size : ℕ) (start_aligned : v.aslr_region.start % 0x1000 ≡ 0)
    (end_lt : v.aslr_region.end < 2 ^ 64) (maps : Grants map_memory) (unmaps : Grants unmap_memory)
    (is_map : IsMap query (ro / 0x1000 * 0x1000 + (size + 0xfff) / 0x1000 * 0x1000))
    (below : ro + size + 0x2000 < 2 ^ 64) (pos : 0 < size) (enough : size + 0xfff ≤ fuel)
    (reserved : reserve ≢ 0) (fresh : IsFresh reserve hs)
    (chain : IsChain v.nodes 0 v.reservations hs) where
  create_at :
      (a : ℕ)
      → virtmem_find_aslr rng query v rounds (get_aligned_size (asked ro size)) 0 draws
        ≡ ok (some a)
      → IsFound rng query v v.aslr_region (range_size ro size) 0 a
      → a ≢ 0
      → (r : Created) × (create_rw_pages rng query map_memory rounds draws fuel reserve v ro size 0
          ≡ ok r)
        × IsOwned rng query unmap_memory fuel reserve v hs ro size a r
  unfolding IsOwned create_rw_pages IsMapped destroy_rw_pages
  create_at a runs found ne =
      let whole = found.whole_pages.1 in
      let to_end = found.to_end in
      let aligned : a % 0x1000 ≡ 0 = omega arith in
      let room : a + 0x1000 < 2 ^ 64 =
        omega (arith, range_lem size (asked ro size) refl pos (omega arith), to_end) in
      let (c, calls, built, mapped, _) =
        rw_pages-IsMapped query map_memory fuel ro size a reserve is_map maps below room pos enough
          ne reserved in
      let r : Created = record {
        pages = record { claim = c; owner = true };
        calls = calls;
        virtmem = virtmem_add_reservation reserve a (get_aligned_size (asked ro size)) v;
      } in
      let view = aligned_view c ro a mapped.2 aligned in
      let linked =
        virtmem_add_reservation-IsChain v reserve a (get_aligned_size (asked ro size)) hs reserved
          fresh chain in
      let made =
        rw_pages-calls query map_memory fuel ro size a reserve c calls built ne reserved mapped.0
          mapped.1 in
      (
        r,
        rw (runs, built) refl,
        (
          found,
          view,
          mapped,
          linked,
          (
            virtmem_remove_reservation reserve r.virtmem,
            ap
                  (λ (o : Outcome (List MapCall)). o >>= λ calls'. ok (
                    flush_all c,
                    parts (get_aligned_rw c) calls',
                    virtmem_remove_reservation reserve r.virtmem,
                  ))
                  (same_calls query map_memory unmap_memory a (get_aligned_rw c) fuel
                      (get_aligned_ro c) (get_aligned_size c) maps unmaps
                    ∙ made)
                ∙ ap
                    (λ (b : ℕ).
                      ok (flush_all c, parts b calls, virtmem_remove_reservation reserve r.virtmem))
                    view,
            virtmem_remove_reservation-IsChain r.virtmem reserve [] hs linked,
          ),
        ),
      )

  no_range :
      (found : Option ℕ)
      → virtmem_find_aslr rng query v rounds (get_aligned_size (asked ro size)) 0 draws ≡ ok found
      → pointer found ≡ 0
      → create_rw_pages rng query map_memory rounds draws fuel reserve v ro size 0 ≡ assertion
  unfolding create_rw_pages rw_pages
  no_range found runs null = rw (runs, null) refl

  pub create_rw_pages-IsOwned :
      v.aslr_region.start ≤ v.aslr_region.end
      → ((b : ℕ) → (m : MemoryInfo) × (query b ≡ value m))
      → Ends v.nodes rounds v.reservations
      → ((j : ℕ) → HasDraw rng query v rounds v.aslr_region (range_size ro size) j)
      → (create_rw_pages rng query map_memory rounds draws fuel reserve v ro size 0 ≡ assertion)
        ⊎ ((a : ℕ) × (r : Created) × (create_rw_pages rng query map_memory rounds draws fuel reserve
                v ro size 0
              ≡ ok r)
            × IsOwned rng query unmap_memory fuel reserve v hs ro size a r)
  unfolding IsAnswer virtmem_find_aslr
  create_rw_pages-IsOwned le answers ends drawn =
      let (o, runs, answer) =
        memregion_find_random-IsAnswer rng query v rounds v.aslr_region
          (get_aligned_size (asked ro size)) 0 draws le end_lt answers ends drawn in
      by_answer o runs answer
    where
      by_answer :
          (o : Option ℕ)
          → virtmem_find_aslr rng query v rounds (get_aligned_size (asked ro size)) 0 draws ≡ ok o
          → IsAnswer rng query v v.aslr_region (range_size ro size) (page_align 0) o
          → (create_rw_pages rng query map_memory rounds draws fuel reserve v ro size 0 ≡ assertion)
            ⊎ ((a : ℕ) × (r : Created) × (create_rw_pages rng query map_memory rounds draws fuel
                    reserve v ro size 0
                  ≡ ok r)
                × IsOwned rng query unmap_memory fuel reserve v hs ro size a r)
      by_answer none runs answer = inl (no_range none runs refl)
      by_answer (some a) runs answer = elim (is_null a) [
        | inl null ↦ inl (no_range (some a) runs null)
        | inr ne ↦
            let (r, created, owned) = create_at a runs answer ne in inr (a, r, created, owned)
      ]
