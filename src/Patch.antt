-- ===== src/Patch.antt =====
-- The patchers of src/lib/patch: patcher_impl.hpp, stream_patcher.hpp, code_patcher.hpp and
-- random_access_patcher.hpp, over the pages of the main module. Addresses are patterns of 64 bits, a
-- value is its list of bytes in memory order.
pub mod Memory
pub mod Flushed
pub mod Written
pub mod Branches
pub mod Bounds
mod Tests
use zeldar.Base.{
  ℕ, zero, suc, ◌+◌, ◌-◌, ◌/◌, ◌%◌, ◌^◌, Bool, true, false, ◌||◌, List, [], ◌∷◌, ◌++◌, length, min,
  max, ◌==◌, if◌then◌else◌, add64, sub64, u32, Outcome, ok, ◌>>=◌,
}
pub use zeldar.Caches.{Effect, wrote, dcache_flush, icache_invalidate}
use zeldar.RwPages.{Claim}
use zeldar.MemLayout.{Scan, get_main_module_info, get_end}
use zeldar.Armv8.Encode.Branches.{branch, branch_link}

-- The memory by bytes, and what has been done, the newest effect first.
pub record Machine : Type 0 where
  pub memory : ℕ → ℕ
  pub effects : List Effect

unfoldable pub store_byte : ℕ → ℕ → (ℕ → ℕ) → ℕ → ℕ
store_byte a b memory x = if x == a then b else memory x

-- A value at an address.
unfoldable pub store_bytes : ℕ → List ℕ → (ℕ → ℕ) → ℕ → ℕ
unfolding store_byte
store_bytes a [] memory = memory
store_bytes a (b ∷ bs) memory = store_bytes (add64 a 1) bs (store_byte a b memory)

unfoldable pub load_bytes : ℕ → ℕ → (ℕ → ℕ) → List ℕ
load_bytes zero a memory = []
load_bytes (suc n) a memory = memory a ∷ load_bytes n (add64 a 1) memory

-- The pages that `InitPatcherImpl` asks for: from the start of the main module to the end of its
-- read-only data.
unfoldable pub init_patcher_impl : Scan → Outcome (ℕ × ℕ)
unfolding get_main_module_info get_end
init_patcher_impl s = do
  m ← get_main_module_info s
  ok (m.total.start, sub64 (get_end m.rodata) m.total.start)

unfoldable pub addr_from_ro : Claim → ℕ → ℕ
addr_from_ro pages ro = sub64 ro pages.ro

unfoldable pub addr_from_rw : Claim → ℕ → ℕ
addr_from_rw pages rw = sub64 rw pages.rw_view

unfoldable pub ro_from_addr : Claim → ℕ → ℕ
ro_from_addr pages addr = add64 pages.ro addr

unfoldable pub rw_from_addr : Claim → ℕ → ℕ
rw_from_addr pages addr = add64 pages.rw_view addr

-- The two calls that a patcher makes for a range.
unfoldable pub flush_range : Claim → ℕ → ℕ → Machine → Machine
unfolding ro_from_addr rw_from_addr
flush_range pages start size k = record k {
  effects =
      icache_invalidate (ro_from_addr pages start) size
      ∷ dcache_flush (rw_from_addr pages start) size
      ∷ k.effects;
}

-- `PatcherImpl::At` for a write.
unfoldable pub write_at : Claim → ℕ → List ℕ → Machine → Machine
unfolding rw_from_addr store_bytes
write_at pages addr v k = record k {
  memory = store_bytes (rw_from_addr pages addr) v k.memory;
  effects = wrote (rw_from_addr pages addr) (length v) ∷ k.effects;
}

-- A `StreamPatcher`, with the machine that it works on.
pub record Stream : Type 0 where
  pub start : ℕ
  pub current : ℕ
  pub machine : Machine

abbrev pub stream_patcher : ℕ → Machine → Stream
stream_patcher start k = record { start = start; current = start; machine = k }

unfoldable pub relative_address_from_base : ℕ → Stream → ℕ
relative_address_from_base address s = sub64 address s.current

-- The bytes of an instruction.
unfoldable pub word_bytes : ℕ → List ℕ
word_bytes w = w % 256 ∷ w / 256 % 256 ∷ w / 2 ^ 16 % 256 ∷ w / 2 ^ 24 % 256 ∷ []

module _ (pages : Claim) where
  unfoldable pub flush : Stream → Stream
  unfolding flush_range
  flush s =
      if s.start == s.current
      then s
      else let size = sub64 s.current s.start in
        record s { start = add64 s.start size; machine = flush_range pages s.start size s.machine }

  unfoldable pub relative_address_from_pointer : ℕ → Stream → ℕ
  unfolding addr_from_ro
  relative_address_from_pointer ptr s = sub64 (addr_from_ro pages ptr) s.current

  unfoldable pub write : List ℕ → Stream → Stream
  unfolding write_at
  write v s = record s {
    machine = write_at pages s.current v s.machine;
    current = add64 s.current (length v);
  }

  unfoldable pub seek_rel : ℕ → Stream → Stream
  unfolding flush
  seek_rel address s =
      if address == 0
      then s
      else record (flush s) { start = add64 address s.current; current = add64 address s.current }

  unfoldable pub seek : ℕ → Stream → Stream
  unfolding seek_rel relative_address_from_base
  seek address s = seek_rel (relative_address_from_base address s) s

  unfoldable pub seek_pointer : ℕ → Stream → Stream
  unfolding seek_rel relative_address_from_pointer
  seek_pointer ptr s = seek_rel (relative_address_from_pointer ptr s) s

  unfoldable pub write_inst : ℕ → Stream → Stream
  unfolding write word_bytes
  write_inst inst s = write (word_bytes inst) s

  -- A distance is cut to the 32 bits of the instruction's constructor.
  unfoldable pub branch_inst_rel : ℕ → Stream → Stream
  unfolding write_inst
  branch_inst_rel address s = write_inst (branch (u32 address)) s

  unfoldable pub branch_link_inst_rel : ℕ → Stream → Stream
  unfolding write_inst
  branch_link_inst_rel address s = write_inst (branch_link (u32 address)) s

  unfoldable pub branch_inst : ℕ → Stream → Stream
  unfolding branch_inst_rel relative_address_from_base
  branch_inst address s = branch_inst_rel (relative_address_from_base address s) s

  unfoldable pub branch_link_inst : ℕ → Stream → Stream
  unfolding branch_link_inst_rel relative_address_from_base
  branch_link_inst address s = branch_link_inst_rel (relative_address_from_base address s) s

  unfoldable pub branch_inst_pointer : ℕ → Stream → Stream
  unfolding branch_inst_rel relative_address_from_pointer
  branch_inst_pointer ptr s = branch_inst_rel (relative_address_from_pointer ptr s) s

  unfoldable pub branch_link_inst_pointer : ℕ → Stream → Stream
  unfolding branch_link_inst_rel relative_address_from_pointer
  branch_link_inst_pointer ptr s = branch_link_inst_rel (relative_address_from_pointer ptr s) s

-- A `RandomAccessPatcher`.
pub record Random : Type 0 where
  pub lowest : ℕ
  pub highest : ℕ
  pub machine : Machine

abbrev pub uintptr_max : ℕ
uintptr_max = 2 ^ 64 - 1

abbrev pub random_access_patcher : Machine → Random
random_access_patcher k = record { lowest = uintptr_max; highest = uintptr_max; machine = k }

unfoldable pub is_unset : Random → Bool
is_unset s = s.lowest == uintptr_max || s.highest == uintptr_max

unfoldable pub set_lowest : ℕ → Random → Random
unfolding is_unset
set_lowest addr s = record s { lowest = if is_unset s then addr else min s.lowest addr }

unfoldable pub set_highest : ℕ → Random → Random
unfolding is_unset
set_highest addr s = record s { highest = if is_unset s then addr else max s.highest addr }

module _ (pages : Claim) where
  unfoldable pub random_write : ℕ → List ℕ → Random → Random
  unfolding set_lowest set_highest write_at
  random_write addr v s =
      let s' = set_highest (add64 addr (length v)) (set_lowest addr s) in
      record s' { machine = write_at pages addr v s'.machine }

  unfoldable pub random_read : ℕ → ℕ → Random → List ℕ
  unfolding rw_from_addr load_bytes
  random_read n index s = load_bytes n (rw_from_addr pages index) s.machine.memory

  unfoldable pub random_flush : Random → Random
  unfolding is_unset flush_range
  random_flush s =
      if is_unset s
      then s
      else record s { machine = flush_range pages s.lowest (sub64 s.highest s.lowest) s.machine }
