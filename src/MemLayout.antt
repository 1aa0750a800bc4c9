-- ===== src/MemLayout.antt =====
-- The modules and the regions of the process, src/lib/util/sys/mem_layout.cpp and mem_layout.hpp. The
-- kernel's answers and the start of our own module are parameters.
pub mod Walk
pub mod Loop
pub mod Found
pub mod Ranges
mod Tests
use zeldar.Base.{
  ℕ, zero, suc, ◌-◌, ◌+◌, ◌*◌, ◌%◌, ◌^◌, Bool, true, false, not, ◌&&◌, Option, none, some, List, [],
  ◌∷◌, ◌++◌, length, get_or, ltb, leb, ◌==◌, if◌then◌else◌, add64, sub64, Outcome, ok, aborted,
  assertion, out_of_fuel, ◌>>=◌, ◌>>◌, exl_assert,
}
use mathlib.Core.Option
use zeldar.Virtmem.{
  Reply, value, failed, InfoType, invalid_memory_state, invalid_memory_range, weird_kernel,
}

pub record Range : Type 0 where
  pub start : ℕ
  pub size : ℕ

abbrev pub empty_range : Range
empty_range = record { start = 0; size = 0 }

unfoldable pub get_end : Range → ℕ
get_end r = add64 r.start r.size

pub record ModuleInfo : Type 0 where
  pub total : Range
  pub text : Range
  pub rodata : Range
  pub data_range : Range

abbrev pub empty_info : ModuleInfo
empty_info = record {
  total = empty_range;
  text = empty_range;
  rodata = empty_range;
  data_range = empty_range;
}

-- The part of `MemoryInfo` that is read; `mem_type` has the state bits above its low byte.
pub record Region : Type 0 where
  pub addr : ℕ
  pub size : ℕ
  pub mem_type : ℕ
  pub perm : ℕ

pub data State : Type 0 where
  looking_for_code_static : State
  expecting_rodata : State
  expecting_data : State

-- The variables of `FindModules`, with `s_ModuleInfos`, whose length is `nextModIdx`,
-- `s_ModuleCount` and `s_SelfModuleIdx`, where `none` is -1.
pub record Scan : Type 0 where
  pub state : State
  pub cur_mod_info : ModuleInfo
  pub infos : List ModuleInfo
  pub module_count : Option ℕ
  pub self_module_idx : Option ℕ

abbrev pub start_scan : Scan
start_scan = record {
  state = looking_for_code_static;
  cur_mod_info = empty_info;
  infos = [];
  module_count = none;
  self_module_idx = none;
}

abbrev pub max_modules : ℕ
max_modules = 13

-- `result::TooManyStaticModules`.
abbrev pub too_many_static_modules : ℕ
too_many_static_modules = 252 + 5 * 2 ^ 9

-- `memtype` and `perm` of the three parts: static code that is executable, static code that is only
-- readable, and mutable code that is writable.
abbrev pub has_kind : ℕ → ℕ → Region → Bool
has_kind mem_type perm r = r.mem_type % 2 ^ 8 == mem_type && r.perm == perm

unfoldable pub is_text : Region → Bool
is_text = has_kind 3 5

unfoldable pub is_rodata : Region → Bool
is_rodata = has_kind 3 1

unfoldable pub is_data : Region → Bool
is_data = has_kind 4 3

-- The lambda `reset`.
unfoldable pub reset : Scan → Scan
reset s = record s { state = looking_for_code_static; cur_mod_info = empty_info }

unfoldable pub store_text : Region → Scan → Scan
store_text r s = record s {
  state = expecting_rodata;
  cur_mod_info = record (s.cur_mod_info) {
    total = record (s.cur_mod_info.total) { start = r.addr };
    text = record { start = r.addr; size = r.size };
  };
}

unfoldable pub store_rodata : Region → Scan → Scan
store_rodata r s = record s {
  state = expecting_data;
  cur_mod_info = record (s.cur_mod_info) { rodata = record { start = r.addr; size = r.size } };
}

-- The module is complete: it is stored, and the scan starts over.
unfoldable pub store_module : ℕ → Region → Scan → Scan
unfolding get_end reset
store_module module_start r s =
    let range : Range = record { start = r.addr; size = r.size } in
    let total = s.cur_mod_info.total in
    let info = record (s.cur_mod_info) {
      data_range = range;
      total = record total { size = sub64 (get_end range) total.start };
    } in
    reset (record s {
      infos = s.infos ++ info ∷ [];
      module_count = some (length s.infos + 1);
      self_module_idx =
          if total.start == module_start then some (length s.infos) else s.self_module_idx;
    })

-- One round's `switch`.
unfoldable pub switch_state : ℕ → Region → Scan → State → Scan
unfolding is_text is_rodata is_data reset store_text store_rodata store_module
switch_state module_start r s looking_for_code_static = if is_text r then store_text r s else s
switch_state module_start r s expecting_rodata = if is_rodata r then store_rodata r s else reset s
switch_state module_start r s expecting_data =
    if is_data r then store_module module_start r s else reset s

unfoldable pub step : ℕ → Region → Scan → Scan
unfolding switch_state
step module_start r s = switch_state module_start r s s.state

abbrev pub no_region : Region
no_region = record { addr = 0; size = 0; mem_type = 0; perm = 0 }

-- A counter that is not -1, tested against the number of entries.
unfoldable pub assert_count : (ℕ → Bool) → Option ℕ → Outcome (Unit {0})
assert_count test none = assertion
assert_count test (some n) = exl_assert (test n)

-- The assertions after the loop.
unfoldable pub check_counts : Scan → Outcome Scan
unfolding assert_count
check_counts s = do
  assert_count (λ i. ltb i max_modules) s.self_module_idx
  assert_count (λ n. leb n max_modules) s.module_count
  ok s

module _ (query : ℕ → Reply Region) (module_start : ℕ) where
  -- The loop, from the range `prev` that was answered last.
  unfoldable pub find_loop : ℕ → Region → Scan → Outcome Scan
  unfolding step
  find_loop zero prev s = out_of_fuel
  find_loop (suc fuel) prev s =
      if leb max_modules (length s.infos)
      then aborted too_many_static_modules
      else elim (query (add64 prev.addr prev.size)) [
        | failed rc ↦ aborted rc
        | value r ↦
            let s' = step module_start r s in
            let rest = find_loop fuel r s' in if ltb r.addr prev.addr then ok s' else rest
      ]

  unfoldable pub find_modules : ℕ → Outcome Scan
  unfolding find_loop check_counts
  find_modules fuel = do s ← find_loop fuel no_region start_scan; check_counts s

-- `GetModuleInfo`; an index of -1 passes the test against the counter, unless it is -1 too, and ends
-- in the range check of `std::array::at`, which does not come back either.
unfoldable pub get_module_info : Scan → Option ℕ → Outcome ModuleInfo
get_module_info s none = assertion
get_module_info s (some index) = elim s.module_count [
  | none ↦ assertion
  | some count ↦ if ltb index count then ok (get_or s.infos index empty_info) else assertion
]

unfoldable pub get_rtld_module_info : Scan → Outcome ModuleInfo
unfolding get_module_info
get_rtld_module_info s = get_module_info s (some 0)

unfoldable pub get_main_module_info : Scan → Outcome ModuleInfo
unfolding get_module_info
get_main_module_info s = get_module_info s (some 1)

unfoldable pub get_self_module_info : Scan → Outcome ModuleInfo
unfolding get_module_info
get_self_module_info s = get_module_info s s.self_module_idx

-- The counter is at least 1 when it is not -1.
unfoldable pub get_sdk_module_info : Scan → Outcome ModuleInfo
unfolding get_module_info
get_sdk_module_info s = get_module_info s (Option.map (λ count. count - 1) s.module_count)

-- `modules::GetSelfStart`, `GetTargetOffset` and `GetTargetStart`.
unfoldable pub get_self_start : Scan → Outcome ℕ
unfolding get_self_module_info
get_self_start s = do m ← get_self_module_info s; ok m.total.start

unfoldable pub get_target_offset : Scan → ℕ → Outcome ℕ
unfolding get_main_module_info
get_target_offset s offset = do m ← get_main_module_info s; ok (add64 m.total.start offset)

unfoldable pub get_target_start : Scan → Outcome ℕ
unfolding get_target_offset
get_target_start s = get_target_offset s 0

-- The four regions of the address space.
pub record Regions : Type 0 where
  pub alias_range : Range
  pub heap_range : Range
  pub aslr_range : Range
  pub stack_range : Range

-- `InferAslrAndStack`: the two ranges, or its failure; `unmap` is the result of the
-- probing `svcUnmapMemory`.
unfoldable pub infer_aslr_and_stack : ℕ → Reply (Range × Range)
infer_aslr_and_stack unmap =
    let rc = unmap % 2 ^ 22 in
    if rc == invalid_memory_state
    then value (
      record { start = 0x200000; size = 0x100000000 },
      record { start = 0x200000; size = 0x40000000 },
    )
    else if rc == invalid_memory_range
    then value (
      record { start = 0x8000000; size = 0x1000000000 },
      record { start = 0x8000000; size = 0x80000000 },
    )
    else failed weird_kernel

module _ (get_info : InfoType → Reply ℕ) (unmap : ℕ) where
  unfoldable pub get_address_from_info : InfoType → Outcome ℕ
  get_address_from_info type = elim (get_info type) [ failed rc ↦ aborted rc | value a ↦ ok a ]

  -- The four calls for the ASLR and the stack region, up to the first that fails.
  unfoldable pub aslr_and_stack_info : Option (Range × Range)
  aslr_and_stack_info = elim (get_info InfoType.aslr_region_address) [
    | failed rc ↦ none
    | value a ↦ elim (get_info InfoType.aslr_region_size) [
      | failed rc ↦ none
      | value b ↦ elim (get_info InfoType.stack_region_address) [
        | failed rc ↦ none
        | value c ↦ elim (get_info InfoType.stack_region_size) [
          | failed rc ↦ none
          | value d ↦ some (record { start = a; size = b }, record { start = c; size = d })
        ]
      ]
    ]
  ]

  unfoldable pub find_regions : Outcome Regions
  unfolding get_address_from_info infer_aslr_and_stack aslr_and_stack_info
  find_regions = do
    alias_start ← get_address_from_info InfoType.alias_region_address
    alias_size ← get_address_from_info InfoType.alias_region_size
    heap_start ← get_address_from_info InfoType.heap_region_address
    heap_size ← get_address_from_info InfoType.heap_region_size
    (aslr, stack) ← elim aslr_and_stack_info as (λ x. Outcome (Range × Range)) [
      | some ranges ↦ ok ranges
      | none ↦ elim (infer_aslr_and_stack unmap) as (λ x. Outcome (Range × Range)) [
        | failed rc ↦ assertion
        | value ranges ↦ ok ranges
      ]
    ]
    ok (record {
      alias_range = record { start = alias_start; size = alias_size };
      heap_range = record { start = heap_start; size = heap_size };
      aslr_range = aslr;
      stack_range = stack;
    })
