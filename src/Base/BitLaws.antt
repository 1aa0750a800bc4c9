-- ===== src/Base/BitLaws.antt =====
-- `bit_and` and `bit_or` as arithmetic: both work on the high and the low part of a word apart.
use native.Mathlib.Nat.{pow-suc}
use zeldar.Base.Digits.{bit_and_digit, bit_or_digit}
use Prim.Native.Nat.{ℕ, zero, suc, ◌+◌, ◌*◌, ◌/◌, ◌^◌, ◌≤◌, ◌<◌, bit_and, bit_or}
use mathlib.Core.Path.{◌≡◌, refl, ap}
use native.Mathlib.Omega.{arith}

bit_and-zero_le : (n a : ℕ) → a ≤ n → (bit_and a 0 ≡ 0) × (bit_and 0 a ≡ 0)
bit_and-zero_le n zero h = (refl, refl)
bit_and-zero_le zero (suc a) h = absurd (omega arith)
bit_and-zero_le (suc n) (suc a) h = omega (
  arith,
  bit_and_digit (suc a) 0,
  bit_and_digit 0 (suc a),
  bit_and-zero_le n (suc a / 2) (omega arith),
)

bit_or-zero_le : (n a : ℕ) → a ≤ n → (bit_or a 0 ≡ a) × (bit_or 0 a ≡ a)
bit_or-zero_le n zero h = (refl, refl)
bit_or-zero_le zero (suc a) h = absurd (omega arith)
bit_or-zero_le (suc n) (suc a) h = omega (
  arith,
  bit_or_digit (suc a) 0,
  bit_or_digit 0 (suc a),
  bit_or-zero_le n (suc a / 2) (omega arith),
)

pub bit_and-zero : (a : ℕ) → bit_and a 0 ≡ 0
bit_and-zero a = (bit_and-zero_le a a (omega arith)).0

pub bit_or-zero : (a : ℕ) → bit_or a 0 ≡ a
bit_or-zero a = (bit_or-zero_le a a (omega arith)).0

pub zero-bit_or : (a : ℕ) → bit_or 0 a ≡ a
zero-bit_or a = (bit_or-zero_le a a (omega arith)).1

double : (q k : ℕ) → q * 2 ^ suc k ≡ q * 2 ^ k * 2
double q k = omega (arith, ap (λ (t : ℕ). q * t) (pow-suc 2 k))

-- The high parts and the low parts do not meet.
pub bit_and_split :
    (k p r q s : ℕ)
    → r < 2 ^ k
    → s < 2 ^ k
    → bit_and (p * 2 ^ k + r) (q * 2 ^ k + s) ≡ bit_and p q * 2 ^ k + bit_and r s
bit_and_split zero p zero q zero hr hs = ground (arith, bit_and-zero 0)
bit_and_split zero p (suc r) q s hr hs = absurd (omega arith)
bit_and_split zero p r q (suc s) hr hs = absurd (omega arith)
bit_and_split (suc k) p r q s hr hs = ground (
  arith,
  double p k,
  double q k,
  double (bit_and p q) k,
  pow-suc 2 k,
  bit_and_digit (p * 2 ^ suc k + r) (q * 2 ^ suc k + s),
  bit_and_digit r s,
  bit_and_split k p (r / 2) q (s / 2),
)

pub bit_or_split :
    (k p r q s : ℕ)
    → r < 2 ^ k
    → s < 2 ^ k
    → bit_or (p * 2 ^ k + r) (q * 2 ^ k + s) ≡ bit_or p q * 2 ^ k + bit_or r s
bit_or_split zero p zero q zero hr hs = ground (arith, bit_or-zero 0)
bit_or_split zero p (suc r) q s hr hs = absurd (omega arith)
bit_or_split zero p r q (suc s) hr hs = absurd (omega arith)
bit_or_split (suc k) p r q s hr hs = ground (
  arith,
  double p k,
  double q k,
  double (bit_or p q) k,
  pow-suc 2 k,
  bit_or_digit (p * 2 ^ suc k + r) (q * 2 ^ suc k + s),
  bit_or_digit r s,
  bit_or_split k p (r / 2) q (s / 2),
)
