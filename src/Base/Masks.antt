-- ===== src/Base/Masks.antt =====
-- Masks as arithmetic, at every width: a run of ones keeps a field, its complement clears one.
use native.Mathlib.Nat.{pow-suc, one-le-pow}
use zeldar.Base.Digits.{bit_and_digit}
use zeldar.Base.BitLaws.{bit_and-zero, bit_or-zero, zero-bit_or}
use zeldar.Base.BitLaws.{bit_and_split, bit_or_split}
use Prim.Native.Nat.{ℕ, zero, suc, ◌+◌, ◌-◌, ◌*◌, ◌/◌, ◌%◌, ◌^◌, ◌≤◌, ◌<◌, bit_and, bit_or}
use mathlib.Core.Path.{◌≡◌, ap}
use native.Mathlib.Omega.{arith}

pub two_pow_pos : (k : ℕ) → 1 ≤ 2 ^ k
two_pow_pos k = one-le-pow k 2 (omega arith)

pub two_pow_add : (a b : ℕ) → 2 ^ (a + b) ≡ 2 ^ a * 2 ^ b
two_pow_add zero b = let e : 2 ^ (0 + b) ≡ 2 ^ b = ap (λ t. 2 ^ t) (omega arith) in omega arith
two_pow_add (suc a) b = rw (pow-suc 2 a) (
    let e : 2 ^ (suc a + b) ≡ 2 ^ suc (a + b) = ap (λ t. 2 ^ t) (omega arith) in
    rw e (omega (arith, pow-suc 2 (a + b), two_pow_add a b)))

-- Within its width a word is kept by the mask of all ones.
bit_and_ones : (k a : ℕ) → a < 2 ^ k → bit_and a (2 ^ k - 1) ≡ a
bit_and_ones zero a h = rw bit_and-zero (omega arith)
bit_and_ones (suc k) a h =
    ground
      (arith, pow-suc 2 k, two_pow_pos k, bit_and_digit a (2 ^ suc k - 1), bit_and_ones k (a / 2))

pub mask_low : (k a : ℕ) → bit_and a (2 ^ k - 1) ≡ a % 2 ^ k
mask_low k a = ground (
  arith,
  two_pow_pos k,
  bit_and_split k (a / 2 ^ k) (a % 2 ^ k) 0 (2 ^ k - 1),
  bit_and-zero (a / 2 ^ k),
  bit_and_ones k (a % 2 ^ k),
)

pub mask_field : (k c a : ℕ) → bit_and a ((2 ^ c - 1) * 2 ^ k) ≡ a / 2 ^ k % 2 ^ c * 2 ^ k
mask_field k c a = ground (
  arith,
  two_pow_pos k,
  bit_and_split k (a / 2 ^ k) (a % 2 ^ k) (2 ^ c - 1) 0,
  bit_and-zero (a % 2 ^ k),
  mask_low c (a / 2 ^ k),
)

-- All ones but the `c` at `k`, with `g` ones above.
pub mask_gap :
    (k c g a : ℕ)
    → a / 2 ^ k / 2 ^ c < 2 ^ g
    → bit_and a ((2 ^ g - 1) * 2 ^ c * 2 ^ k + (2 ^ k - 1))
      ≡ a / 2 ^ k / 2 ^ c * 2 ^ c * 2 ^ k + a % 2 ^ k
mask_gap k c g a h = ground (
  arith,
  two_pow_pos k,
  two_pow_pos c,
  bit_and_split k (a / 2 ^ k) (a % 2 ^ k) ((2 ^ g - 1) * 2 ^ c) (2 ^ k - 1),
  bit_and_split c (a / 2 ^ k / 2 ^ c) (a / 2 ^ k % 2 ^ c) (2 ^ g - 1) 0,
  bit_and-zero (a / 2 ^ k % 2 ^ c),
  bit_and_ones g (a / 2 ^ k / 2 ^ c),
  bit_and_ones k (a % 2 ^ k),
)

-- `|` of parts that do not meet is their sum.
pub bit_or_low : (k q s : ℕ) → s < 2 ^ k → bit_or (q * 2 ^ k) s ≡ q * 2 ^ k + s
bit_or_low k q s h =
    ground (arith, two_pow_pos k, bit_or_split k q 0 0 s, bit_or-zero q, zero-bit_or s)

pub bit_or_high : (k q s : ℕ) → s < 2 ^ k → bit_or s (q * 2 ^ k) ≡ q * 2 ^ k + s
bit_or_high k q s h =
    ground (arith, two_pow_pos k, bit_or_split k 0 s q 0, zero-bit_or q, bit_or-zero s)

pub bit_or_field :
    (k c p b s : ℕ)
    → b < 2 ^ c
    → s < 2 ^ k
    → bit_or (p * 2 ^ c * 2 ^ k + s) (b * 2 ^ k) ≡ p * 2 ^ c * 2 ^ k + b * 2 ^ k + s
bit_or_field k c p b s hb hs =
    let add_zero : b * 2 ^ k + 0 ≡ b * 2 ^ k = omega arith in
    let split = bit_or_split k (p * 2 ^ c) s b 0 hs (two_pow_pos k) in
    rw (← add_zero, split, bit_or_low c p b hb, bit_or-zero s) (omega arith)
