-- ===== src/Hook/Served/Tests.antt =====
-- A process in which src/lib/hook/nx64/hook_impl.cpp gets its pages, for the tests of the hooks.
use zeldar.Base.{ℕ, ◌+◌, ◌*◌, ◌/◌, ◌≤◌, ◌≡◌, inr, refl, arith, List, [], ◌∷◌, false, fault}
use zeldar.Virtmem.Reserved.{Ends}
use zeldar.Virtmem.Search.{HasDraw}
use zeldar.Virtmem.Chain.{IsFresh, IsChain}
use zeldar.RwPages.{get_aligned_size}
use zeldar.RwPages.Cover.{IsMap}
use zeldar.RwPages.Lifecycle.{range_size}
use zeldar.RwPages.Tests.{
  module_and_free, module_and_free-next, module_and_free-answers, always_maps, space, counting,
  aslr,
}
use zeldar.Hook.Install.{Pager, ctrl_size, in_view}
use zeldar.Hook.Served.{IsServed}

abbrev pub pager : Pager
pager = record {
  rng = counting;
  query = module_and_free;
  map_memory = always_maps;
  unmap_memory = always_maps;
  rounds = 1;
  draws = 5;
  fuel = 0x2000;
  reserve = 0x80;
  same = λ address size. 0;
}

-- The addresses in the list of reservations.
abbrev pub reserved : List ℕ
reserved = 0x40 ∷ []

module_and_free-IsMap_below : (end : ℕ) → end ≤ 0x20000 → IsMap module_and_free end
unfolding IsMap
module_and_free-IsMap_below end le = (
  λ a h. (
    record { addr = a / 0x1000 * 0x1000; size = 0x1000; unmapped = false },
    ground arith,
    omega arith,
    omega arith,
    omega arith,
  ),
  module_and_free-next,
)

pub pager-IsServed :
    (symbol size : ℕ)
    → symbol / 0x1000 * 0x1000 + (size + 0xfff) / 0x1000 * 0x1000 ≤ 0x20000
    → size ≤ 20
    → ((j : ℕ) → HasDraw counting module_and_free space 1 aslr (range_size symbol size) j)
    → IsServed pager space reserved symbol size
unfolding Ends IsChain IsFresh
pager-IsServed symbol size le few draws = record {
  start_aligned = refl;
  ordered = omega arith;
  end_lt = omega arith;
  maps = λ rw_addr address part. refl;
  unmaps = λ rw_addr address part. refl;
  is_map =
      module_and_free-IsMap_below (symbol / 0x1000 * 0x1000 + (size + 0xfff) / 0x1000 * 0x1000) le;
  answers = module_and_free-answers;
  ends = inr refl;
  draws = draws;
  enough = omega arith;
  reserved = λ e. omega arith;
  fresh = (λ e. omega arith, tt);
  chain = (refl, λ e. omega arith, tt, refl, refl);
  equal = λ fits. refl;
}

-- A far and a near hook of the function at 0x1000.
pub far-IsServed : IsServed pager space reserved 0x1000 (ctrl_size 0x1000 0x1_0000_0000)
unfolding HasDraw get_aligned_size ctrl_size
far-IsServed =
    pager-IsServed 0x1000 20 (omega arith) (omega arith) (λ j. (0, omega arith, ground arith))

pub near-IsServed : IsServed pager space reserved 0x1000 (ctrl_size 0x1000 0x20048)
unfolding HasDraw get_aligned_size ctrl_size
near-IsServed =
    pager-IsServed 0x1000 4 (omega arith) (omega arith) (λ j. (0, omega arith, ground arith))

-- The patch of a far hook of the function at 0x10ff4 does not fit the page.
over_the_end : in_view (record { ro = 0x10ff4; rw_view = 0x45ff4; size = 20 }) 20 ≡ fault
unfolding in_view
over_the_end = refl
