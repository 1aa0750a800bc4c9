-- ===== src/Armv8/BitSet.antt =====
-- `util::Mask` and `util::BitSet` of src/lib/util/math/bitset.hpp, at the 32-bit `InstType` of
-- src/lib/armv8.hpp. A mask is its bounds `low` and `high`, with `low ≤ high ≤ 32`.
pub mod Laws
use zeldar.Base.{ℕ, ◌-◌, ◌*◌, ◌/◌, ◌^◌, bit_and, bit_or, u32, not32}

-- `Mask::Value()`.
unfoldable pub mask_value : ℕ → ℕ → ℕ
mask_value low high = u32 ((2 ^ (high - low) - 1) * 2 ^ low)

-- `BitSet::BitsOf<low, high>()`.
unfoldable pub bits_of : ℕ → ℕ → ℕ → ℕ
unfolding mask_value
bits_of low high data_ = bit_and data_ (mask_value low high) / 2 ^ low

-- `BitSet::SetBits<low, high>(value)`: the word after it.
unfoldable pub set_bits : ℕ → ℕ → ℕ → ℕ → ℕ
unfolding mask_value
set_bits low high value data_ =
    let carved = bit_and data_ (not32 (mask_value low high)) in
    let v = bit_and (u32 (value * 2 ^ low)) (mask_value low high) in bit_or carved v
