-- ===== src/RwPages.antt =====
-- The two views of a range of pages, `RwPages::Claim` of src/lib/util/sys/rw_pages.hpp. Addresses and
-- offsets are patterns of 64 bits.
pub mod Views
pub mod Ranges
pub mod Cover
pub mod Lifecycle
pub mod Tests
use zeldar.Base.{
  ℕ, ◌+◌, ◌-◌, ◌*◌, ◌/◌, ◌^◌, Bool, true, false, if◌then◌else◌, leb, add64, sub64, is_neg64,
}

pub record Claim : Type 0 where
  pub ro : ℕ
  pub rw_view : ℕ
  pub size : ℕ

-- `ALIGN_DOWN` and `ALIGN_UP` to a page.
abbrev pub align_down : ℕ → ℕ
align_down a = a / 0x1000 * 0x1000

abbrev pub align_up : ℕ → ℕ
align_up a = add64 a 0xfff / 0x1000 * 0x1000

unfoldable pub get_aligned_ro : Claim → ℕ
get_aligned_ro c = align_down c.ro

unfoldable pub get_aligned_rw : Claim → ℕ
get_aligned_rw c = align_down c.rw_view

unfoldable pub get_aligned_size : Claim → ℕ
get_aligned_size c = align_up c.size

-- The offsets are taken as in the source, from the address to the start of the view.
unfoldable pub ro_to_offset : Claim → ℕ → ℕ
ro_to_offset c address = sub64 c.ro address

unfoldable pub rw_to_offset : Claim → ℕ → ℕ
rw_to_offset c address = sub64 c.rw_view address

unfoldable pub ro_to_rw : Claim → ℕ → ℕ
unfolding ro_to_offset
ro_to_rw c address = add64 c.rw_view (ro_to_offset c address)

unfoldable pub rw_to_ro : Claim → ℕ → ℕ
unfolding rw_to_offset
rw_to_ro c address = add64 (rw_to_offset c address) c.ro

unfoldable pub in_ro : Claim → ℕ → Bool
unfolding ro_to_offset
in_ro c address =
    let offset = ro_to_offset c address in
    if is_neg64 offset then false else if leb c.size offset then false else true

unfoldable pub in_rw : Claim → ℕ → Bool
unfolding rw_to_offset
in_rw c address =
    let offset = rw_to_offset c address in
    if is_neg64 offset then false else if leb c.size offset then false else true
