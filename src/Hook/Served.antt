-- ===== src/Hook/Served.antt =====
-- The pages of a hook: the `RwPages` of `HookFuncImpl`, src/lib/hook/nx64/hook_impl.cpp.
pub mod Tests
use zeldar.Base.{
  ℕ, ◌+◌, ◌*◌, ◌/◌, ◌%◌, ◌^◌, ◌≤◌, ◌<◌, ◌≡◌, ◌≢◌, ◌⊎◌, inl, inr, refl, sym, ap, ◌∙◌, arith, List,
  leb, add64, true, Outcome, ok, assertion,
}
use mathlib.Core.Path.{subst}
use zeldar.Caches.{Effect}
use zeldar.Virtmem.{Virtmem, MemoryInfo, value}
use zeldar.Virtmem.Reserved.{Ends}
use zeldar.Virtmem.Search.{HasDraw}
use zeldar.Virtmem.Chain.{IsFresh, IsChain}
use zeldar.RwPages.{Claim, get_aligned_rw, get_aligned_size}
use zeldar.RwPages.Ranges.{Created, create_rw_pages, destroy_rw_pages}
use zeldar.RwPages.Cover.{IsMap, IsMapped}
use zeldar.RwPages.Lifecycle.{Grants, range_size, IsOwned, create_rw_pages-IsOwned}
use zeldar.Hook.Install.{Pager, ctrl_size, in_view}

-- The kernel answers every query, knows the pages up to the one of `symbol`, and maps and unmaps what
-- it is asked for; the list of reservations ends and is well linked; random numbers lead outside the
-- alias and the heap region; and two views of the same bytes compare as equal.
pub record IsServed (k : Pager) (v : Virtmem) (hs : List ℕ) (symbol size : ℕ) : Type 0 where
  pub start_aligned : v.aslr_region.start % 0x1000 ≡ 0
  pub ordered : v.aslr_region.start ≤ v.aslr_region.end
  pub end_lt : v.aslr_region.end < 2 ^ 64
  pub maps : Grants k.map_memory
  pub unmaps : Grants k.unmap_memory
  pub is_map : IsMap k.query (symbol / 0x1000 * 0x1000 + (size + 0xfff) / 0x1000 * 0x1000)
  pub answers : (b : ℕ) → (m : MemoryInfo) × (k.query b ≡ value m)
  pub ends : Ends v.nodes k.rounds v.reservations
  pub draws : (j : ℕ) → HasDraw k.rng k.query v k.rounds v.aslr_region (range_size symbol size) j
  pub enough : size + 0xfff ≤ k.fuel
  pub reserved : k.reserve ≢ 0
  pub fresh : IsFresh k.reserve hs
  pub chain : IsChain v.nodes 0 v.reservations hs
  pub equal : symbol % 0x1000 + size ≤ 0x1000 → k.same symbol size ≡ 0

-- The pages that the constructor has made, with the bytes asked for in the view, and the end of them.
unfoldable pub IsLent : Pager → List ℕ → ℕ → Created → Type 0
IsLent k hs size r =
    ((n : ℕ) → n ≤ size → in_view r.pages.claim n ≡ ok tt)
    × ((effects : List Effect) × (unmapped : List (ℕ × ℕ × ℕ)) × (v' : Virtmem) × (destroy_rw_pages
            k.query k.unmap_memory k.fuel r.pages.claim r.pages.owner k.reserve r.virtmem
          ≡ ok (effects, unmapped, v'))
        × IsChain v'.nodes 0 v'.reservations hs)

in_view_lem :
    (c : Claim) (symbol size a n : ℕ)
    → get_aligned_rw c ≡ a
    → c.size ≡ size
    → c.rw_view ≡ a + symbol % 0x1000
    → 0 < size
    → symbol % 0x1000 + size ≤ 0x1000
    → n ≤ size
    → in_view c n ≡ ok tt
unfolding in_view get_aligned_rw get_aligned_size
in_view_lem c symbol size a n at same view pos fits le =
    let inside : c.rw_view + n
        ≤ c.rw_view / 0x1000 * 0x1000 + add64 c.size 0xfff / 0x1000 * 0x1000 =
      omega arith in
    let holds : leb (c.rw_view + n)
          (c.rw_view / 0x1000 * 0x1000 + add64 c.size 0xfff / 0x1000 * 0x1000)
        ≡ true =
      ground arith in
    rw holds refl

pub pages_lem :
    (k : Pager) (v : Virtmem) (hs : List ℕ) (symbol size : ℕ)
    → IsServed k v hs symbol size
    → symbol + size + 0x2000 < 2 ^ 64
    → 0 < size
    → symbol % 0x1000 + size ≤ 0x1000
    → let made =
        create_rw_pages k.rng k.query k.map_memory k.rounds k.draws k.fuel k.reserve v symbol size
          (k.same symbol size) in
      (made ≡ assertion) ⊎ ((r : Created) × (made ≡ ok r) × IsLent k hs size r)
unfolding IsOwned IsMapped IsLent
pages_lem k v hs symbol size served below pos fits =
    let create : ℕ → Outcome Created =
      create_rw_pages k.rng k.query k.map_memory k.rounds k.draws k.fuel k.reserve v symbol size in
    let same = ap create (served.equal fits) in
    elim (create_rw_pages-IsOwned k.rng k.query k.map_memory k.unmap_memory k.rounds k.draws k.fuel
      k.reserve v hs symbol size served.start_aligned served.end_lt served.maps served.unmaps
      served.is_map below pos served.enough served.reserved served.fresh served.chain served.ordered
      served.answers served.ends served.draws) [
        | inl unfound ↦ inl (same ∙ unfound)
        | inr (a, r, runs, owned) ↦
            let (found, at, mapped, chain, destroyed) = owned in
            inr (
              r,
              same ∙ runs,
              (
                λ n le. in_view_lem r.pages.claim symbol size a n at mapped.1 mapped.2 pos fits le,
                (_, _, destroyed.0, destroyed.1, destroyed.2),
              ),
            )
      ]
