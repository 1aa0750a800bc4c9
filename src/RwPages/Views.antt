-- ===== src/RwPages/Views.antt =====
-- How the views of src/lib/util/sys/rw_pages.hpp answer each other.
use zeldar.Base.{ℕ, ◌+◌, ◌^◌, ◌≤◌, ◌<◌, ◌≡◌, ◌↔◌, ◌⊎◌, arith, true, add64, sub64}
use zeldar.RwPages.{Claim, ro_to_rw, rw_to_ro, in_ro, in_rw, ro_to_offset, rw_to_offset}

-- What lies `k` bytes behind the start of a view is taken to what lies `k` bytes in front of the start
-- of the other, in both directions: the views are mirrored. So the result is the same place of the
-- other view only at its start and at half of the address space. Going there and back gives the
-- address again.
pub ro_to_rw-rw_to_ro :
    (c : Claim) (k : ℕ)
    → c.ro < 2 ^ 64
    → c.rw_view < 2 ^ 64
    → k < 2 ^ 64
    → (ro_to_rw c (add64 c.ro k) ≡ sub64 c.rw_view k)
      × (rw_to_ro c (add64 c.rw_view k) ≡ sub64 c.ro k)
      × ((ro_to_rw c (add64 c.ro k) ≡ add64 c.rw_view k) ↔ ((k ≡ 0) ⊎ (k ≡ 2 ^ 63)))
      × (ro_to_rw c (rw_to_ro c k) ≡ k)
unfolding ro_to_rw rw_to_ro ro_to_offset rw_to_offset
ro_to_rw-rw_to_ro c k h h' le =
    (ground arith, ground arith, (λ e. ground arith, λ e. ground arith), ground arith)

-- For addresses and a size below 2 ^ 62, an address counts as inside a view if it lies in the range
-- of the view's size that ends at the start of the view, and only then: the offset is taken from
-- the address to the start.
pub in_ro-in_rw :
    (c : Claim) (a : ℕ)
    → c.ro < 2 ^ 62
    → c.rw_view < 2 ^ 62
    → c.size < 2 ^ 62
    → a < 2 ^ 62
    → ((in_ro c a ≡ true) ↔ ((a ≤ c.ro) × (c.ro < a + c.size)))
      × ((in_rw c a ≡ true) ↔ ((a ≤ c.rw_view) × (c.rw_view < a + c.size)))
unfolding in_ro in_rw ro_to_offset rw_to_offset
in_ro-in_rw c a h h' size le =
    ((λ e. ground arith, λ e. ground arith), (λ e. ground arith, λ e. ground arith))
