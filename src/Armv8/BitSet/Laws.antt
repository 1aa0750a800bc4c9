-- ===== src/Armv8/BitSet/Laws.antt =====
-- `SetBits` and `BitsOf` as arithmetic. A field is `c` bits at `k`, below the width 32.
use native.Mathlib.Nat.{
  mul-add-mod_self_right, mul-div_cancel, mod-eq_of_lt, mod-lt, mul-lt-mul_of_pos_right,
  div-lt_iff_lt-mul, mod-mod, mul-add-div_right, div-eq_of_lt, div-div-eq-div-mul, add-zero,
}
use zeldar.Base.{
  ℕ, zero, suc, ◌+◌, ◌-◌, ◌*◌, ◌/◌, ◌%◌, ◌^◌, ◌≤◌, ◌<◌, ◌≡◌, ap, ◌∙◌, sym, arith, u32, not32,
}
use zeldar.Base.Masks.{two_pow_add, two_pow_pos, mask_field, mask_gap, bit_or_field}
use zeldar.Armv8.BitSet.{mask_value, bits_of, set_bits}

-- A word of `k + c + g` bits splits at `k` and at `k + c`.
width_split : (k c g : ℕ) → k + c + g ≡ 32 → 2 ^ g * 2 ^ c * 2 ^ k ≡ 2 ^ 32
width_split k c g e =
    let whole : 2 ^ (k + c + g) ≡ 2 ^ 32 = ap (λ t. 2 ^ t) e in
    grind (arith, whole, two_pow_add (k + c) g, two_pow_add k c)

mul_mod_mul : (v k m : ℕ) → 0 < k → 0 < m → (v * k) % (m * k) ≡ v % m * k
mul_mod_mul v k m hk hm =
    let split : v * k ≡ v / m * (m * k) + v % m * k =
      ap (λ (t : ℕ). t * k) (let e : v ≡ v / m * m + v % m = omega arith in e) ∙ omega arith in
    let below : v % m * k < m * k = mul-lt-mul_of_pos_right (mod-lt v hm) hk in
    rw split (mul-add-mod_self_right (v / m) (m * k) (v % m * k) ∙ mod-eq_of_lt below)

pred_mul : (a b : ℕ) → 0 < a → (a - 1) * b + b ≡ a * b
pred_mul zero b h = absurd (omega arith)
pred_mul (suc a) b h = let e : suc a - 1 ≡ a = omega arith in rw e (omega arith)

pos_mul : (a b : ℕ) → 0 < a → 0 < b → 0 < a * b
pos_mul a b ha hb = grind arith

next_le : (a b c : ℕ) → a < b → a * c + c ≤ b * c
next_le a b c h = grind arith

mod_mod_mul : (v g c : ℕ) → v % (g * c) % c ≡ v % c
mod_mod_mul v g c =
    let split : v ≡ v / (g * c) * g * c + v % (g * c) = omega arith in
    sym (ap (λ (t : ℕ). t % c) split ∙ mul-add-mod_self_right (v / (g * c) * g) c (v % (g * c)))

-- Shifting a value up by `k` and cutting it to the word keeps its `c` low bits for the field.
shifted_field : (k c g v : ℕ) → k + c + g ≡ 32 → u32 (v * 2 ^ k) / 2 ^ k % 2 ^ c ≡ v % 2 ^ c
shifted_field k c g v e =
    rw
      (
        ← width_split k c g e,
        mul_mod_mul v (2 ^ k) (2 ^ g * 2 ^ c) (two_pow_pos k)
            (pos_mul (2 ^ g) (2 ^ c) (two_pow_pos g) (two_pow_pos c)),
        mul-div_cancel (v % (2 ^ g * 2 ^ c)) (two_pow_pos k),
      )
      (mod_mod_mul v (2 ^ g) (2 ^ c))

-- The mask of the field, and its complement in the word.
mask_value_field : (k c g : ℕ) → k + c + g ≡ 32 → mask_value k (k + c) ≡ (2 ^ c - 1) * 2 ^ k
unfolding mask_value
mask_value_field k c g e =
    let width : 2 ^ (k + c - k) ≡ 2 ^ c = ap (λ t. 2 ^ t) (omega arith) in
    rw width (
      mod-eq_of_lt (
        omega (
          arith,
          width_split k c g e,
          two_pow_pos k,
          pred_mul (2 ^ c) (2 ^ k) (two_pow_pos c),
          pred_mul (2 ^ g) (2 ^ c * 2 ^ k) (two_pow_pos g),
        )))

not32-mask_value :
    (k c g : ℕ)
    → k + c + g ≡ 32
    → not32 ((2 ^ c - 1) * 2 ^ k) ≡ (2 ^ g - 1) * 2 ^ c * 2 ^ k + (2 ^ k - 1)
not32-mask_value k c g e = omega (
  arith,
  width_split k c g e,
  two_pow_pos k,
  pred_mul (2 ^ c) (2 ^ k) (two_pow_pos c),
  pred_mul (2 ^ g) (2 ^ c * 2 ^ k) (two_pow_pos g),
)

div_div_lt : (word k c g : ℕ) → k + c + g ≡ 32 → word < 2 ^ 32 → word / 2 ^ k / 2 ^ c < 2 ^ g
div_div_lt word k c g e h =
    (div-lt_iff_lt-mul (two_pow_pos c)).1
      ((div-lt_iff_lt-mul (two_pow_pos k)).1 (omega (arith, width_split k c g e)))

-- `SetBits` replaces the field by the low bits of the value and leaves the rest alone.
pub set_bits_lem :
    (k c g v word : ℕ)
    → k + c + g ≡ 32
    → word < 2 ^ 32
    → set_bits k (k + c) v word
      ≡ word / 2 ^ k / 2 ^ c * 2 ^ c * 2 ^ k + v % 2 ^ c * 2 ^ k + word % 2 ^ k
unfolding set_bits
set_bits_lem k c g v word e h =
    rw
      (
        mask_value_field k c g e,
        not32-mask_value k c g e,
        mask_gap k c g word (div_div_lt word k c g e h),
        mask_field k c (u32 (v * 2 ^ k)),
        shifted_field k c g v e,
      )
      (bit_or_field k c (word / 2 ^ k / 2 ^ c) (v % 2 ^ c) (word % 2 ^ k) (mod-lt v (two_pow_pos c))
        (mod-lt word (two_pow_pos k)))

-- `BitsOf` reads the field.
pub bits_of_lem : (k c g word : ℕ) → k + c + g ≡ 32 → bits_of k (k + c) word ≡ word / 2 ^ k % 2 ^ c
unfolding bits_of
bits_of_lem k c g word e =
    rw (mask_value_field k c g e, mask_field k c word)
      (mul-div_cancel (word / 2 ^ k % 2 ^ c) (two_pow_pos k))

-- Into a field that holds zero `SetBits` adds the value at its place.
set_bits-fresh :
    (k c g v word : ℕ)
    → k + c + g ≡ 32
    → word < 2 ^ 32
    → word / 2 ^ k % 2 ^ c ≡ 0
    → set_bits k (k + c) v word ≡ word + v % 2 ^ c * 2 ^ k
set_bits-fresh k c g v word e h fresh =
    let low : word ≡ word / 2 ^ k * 2 ^ k + word % 2 ^ k = omega arith in
    let high : word / 2 ^ k ≡ word / 2 ^ k / 2 ^ c * 2 ^ c = omega arith in
    let lifted = ap (λ (t : ℕ). t * 2 ^ k) high in set_bits_lem k c g v word e h ∙ omega arith

set_bits-lt :
    (k c g v word : ℕ) → k + c + g ≡ 32 → word < 2 ^ 32 → set_bits k (k + c) v word < 2 ^ 32
set_bits-lt k c g v word e h =
    let top = next_le (word / 2 ^ k / 2 ^ c) (2 ^ g) (2 ^ c * 2 ^ k) (div_div_lt word k c g e h) in
    let middle = next_le (v % 2 ^ c) (2 ^ c) (2 ^ k) (mod-lt v (two_pow_pos c)) in
    let bottom : word % 2 ^ k < 2 ^ k = mod-lt word (two_pow_pos k) in
    rw (set_bits_lem k c g v word e h) (omega (arith, width_split k c g e))

-- The parts of the word above and below the written field.
set_bits-high :
    (k c g v word : ℕ)
    → k + c + g ≡ 32
    → word < 2 ^ 32
    → set_bits k (k + c) v word / 2 ^ k ≡ word / 2 ^ k / 2 ^ c * 2 ^ c + v % 2 ^ c
set_bits-high k c g v word e h =
    let regroup : word / 2 ^ k / 2 ^ c * 2 ^ c * 2 ^ k + v % 2 ^ c * 2 ^ k + word % 2 ^ k
        ≡ (word / 2 ^ k / 2 ^ c * 2 ^ c + v % 2 ^ c) * 2 ^ k + word % 2 ^ k =
      omega arith in
    rw (set_bits_lem k c g v word e h, regroup)
      (mul-add-div_right (two_pow_pos k) _ (word % 2 ^ k)
        ∙ omega (arith, div-eq_of_lt (mod-lt word (two_pow_pos k))))

set_bits-low :
    (k c g v word : ℕ)
    → k + c + g ≡ 32
    → word < 2 ^ 32
    → set_bits k (k + c) v word % 2 ^ k ≡ word % 2 ^ k
set_bits-low k c g v word e h =
    let regroup : word / 2 ^ k / 2 ^ c * 2 ^ c * 2 ^ k + v % 2 ^ c * 2 ^ k + word % 2 ^ k
        ≡ (word / 2 ^ k / 2 ^ c * 2 ^ c + v % 2 ^ c) * 2 ^ k + word % 2 ^ k =
      omega arith in
    rw (set_bits_lem k c g v word e h, regroup)
      (mul-add-mod_self_right _ (2 ^ k) (word % 2 ^ k) ∙ mod-mod word (2 ^ k))

-- Reading a field back after writing it gives the low bits of the value.
bits_of-set_bits_self :
    (k c g v word : ℕ)
    → k + c + g ≡ 32
    → word < 2 ^ 32
    → bits_of k (k + c) (set_bits k (k + c) v word) ≡ v % 2 ^ c
bits_of-set_bits_self k c g v word e h =
    rw (bits_of_lem k c g (set_bits k (k + c) v word) e, set_bits-high k c g v word e h)
      (mul-add-mod_self_right _ (2 ^ c) (v % 2 ^ c) ∙ mod-mod v (2 ^ c))

-- A field below the place `j + d + m` of a word depends only on the part below that place.
field_of_mod :
    (j d m word : ℕ) → word / 2 ^ j % 2 ^ d ≡ word % (2 ^ m * 2 ^ d * 2 ^ j) / 2 ^ j % 2 ^ d
field_of_mod j d m word =
    let top = word / (2 ^ m * 2 ^ d * 2 ^ j) in
    let rest = word % (2 ^ m * 2 ^ d * 2 ^ j) in
    let split : word ≡ top * 2 ^ m * 2 ^ d * 2 ^ j + rest = omega arith in
    ap (λ (t : ℕ). t / 2 ^ j % 2 ^ d) split
    ∙ ap (λ (t : ℕ). t % 2 ^ d) (mul-add-div_right (two_pow_pos j) (top * 2 ^ m * 2 ^ d) rest)
    ∙ mul-add-mod_self_right (top * 2 ^ m) (2 ^ d) (rest / 2 ^ j)

-- Writing a field leaves every field apart from it alone: first one above, then one below.
bits_of-set_bits_above :
    (k c g v word m d h : ℕ)
    → k + c + g ≡ 32
    → k + c + m + d + h ≡ 32
    → word < 2 ^ 32
    → bits_of (k + c + m) (k + c + m + d) (set_bits k (k + c) v word)
      ≡ bits_of (k + c + m) (k + c + m + d) word
bits_of-set_bits_above k c g v word m d h e e' small = rw (
  bits_of_lem (k + c + m) d h (set_bits k (k + c) v word) e',
  bits_of_lem (k + c + m) d h word e',
  two_pow_add (k + c) m,
  two_pow_add k c,
  ← div-div-eq-div-mul (set_bits k (k + c) v word) (2 ^ k * 2 ^ c) (2 ^ m),
  ← div-div-eq-div-mul (set_bits k (k + c) v word) (2 ^ k) (2 ^ c),
  ← div-div-eq-div-mul word (2 ^ k * 2 ^ c) (2 ^ m),
  ← div-div-eq-div-mul word (2 ^ k) (2 ^ c),
  set_bits-high k c g v word e small,
  mul-add-div_right (two_pow_pos c) (word / 2 ^ k / 2 ^ c) (v % 2 ^ c),
  div-eq_of_lt (mod-lt v (two_pow_pos c)),
  add-zero,
)

bits_of-set_bits_below :
    (j d m c g v word : ℕ)
    → j + d + m + c + g ≡ 32
    → word < 2 ^ 32
    → bits_of j (j + d) (set_bits (j + d + m) (j + d + m + c) v word) ≡ bits_of j (j + d) word
bits_of-set_bits_below j d m c g v word e small =
    let k = j + d + m in
    let place : 2 ^ k ≡ 2 ^ m * 2 ^ d * 2 ^ j =
      grind (arith, two_pow_add (j + d) m, two_pow_add j d) in
    let low = set_bits-low k c g v word e small in
    rw
      (
        bits_of_lem j d (m + c + g) (set_bits k (k + c) v word) (omega arith),
        bits_of_lem j d (m + c + g) word (omega arith),
      )
      (field_of_mod j d m (set_bits k (k + c) v word)
        ∙ ap (λ (t : ℕ). t / 2 ^ j % 2 ^ d) (rw place at low)
        ∙ sym (field_of_mod j d m word))

-- The same for a field that is named by its bounds.
pub set_bits_eq :
    (low high v word : ℕ)
    → low ≤ high
    → high ≤ 32
    → word < 2 ^ 32
    → set_bits low high v word
      ≡ word / 2 ^ high * 2 ^ high + v % 2 ^ (high - low) * 2 ^ low + word % 2 ^ low
set_bits_eq low high v word h h' small =
    let width : low + (high - low) ≡ high = omega arith in
    let whole = set_bits_lem low (high - low) (32 - high) v word (omega arith) small in
    let upper : word / 2 ^ low / 2 ^ (high - low) ≡ word / 2 ^ high =
      div-div-eq-div-mul word (2 ^ low) (2 ^ (high - low))
      ∙ ap (λ (t : ℕ). word / t)
          (sym (two_pow_add low (high - low)) ∙ ap (λ (t : ℕ). 2 ^ t) width) in
    let place : 2 ^ low * 2 ^ (high - low) ≡ 2 ^ high =
      sym (two_pow_add low (high - low)) ∙ ap (λ (t : ℕ). 2 ^ t) width in
    let scaled = ap (λ (t : ℕ). word / 2 ^ high * t) place in
    rw width at whole ∙ rw upper (omega arith)
