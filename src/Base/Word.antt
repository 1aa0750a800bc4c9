-- ===== src/Base/Word.antt =====
-- Machine words: an unsigned word is a number below its modulus, and a signed word is its two's
-- complement pattern. Every operation writes its wrap-around out.
use Prim.Native.Nat.{ℕ, ◌+◌, ◌-◌, ◌/◌, ◌%◌, ◌^◌}
use mathlib.Core.Bool.{Bool}
use zeldar.Base.Tests.{ltb, if◌then◌else◌}

abbrev pub u8 : ℕ → ℕ
u8 n = n % 2 ^ 8

abbrev pub u16 : ℕ → ℕ
u16 n = n % 2 ^ 16

abbrev pub u32 : ℕ → ℕ
u32 n = n % 2 ^ 32

abbrev pub u64 : ℕ → ℕ
u64 n = n % 2 ^ 64

-- `a + b` and `a - b` on `uint64_t`, `uintptr_t` and `int64_t`.
abbrev pub add64 : ℕ → ℕ → ℕ
add64 a b = u64 (a + b)

abbrev pub sub64 : ℕ → ℕ → ℕ
sub64 a b = (a + 2 ^ 64 - b) % 2 ^ 64

-- `~a` on `uint32_t`.
abbrev pub not32 : ℕ → ℕ
not32 a = 2 ^ 32 - 1 - a

-- Whether an `int64_t` is negative.
abbrev pub is_neg64 : ℕ → Bool
is_neg64 a = if ltb a (2 ^ 63) then Bool.false else Bool.true

-- `a < b` on `int64_t`: the patterns compare after the sign bit is flipped.
abbrev pub slt64 : ℕ → ℕ → Bool
slt64 a b = ltb (add64 a (2 ^ 63)) (add64 b (2 ^ 63))

-- `a >> k` on `int64_t`, which keeps the sign.
abbrev pub asr64 : ℕ → ℕ → ℕ
asr64 a k = if ltb a (2 ^ 63) then a / 2 ^ k else 2 ^ 64 - 1 - (2 ^ 64 - 1 - a) / 2 ^ k

-- `a >> k` on `int32_t`.
abbrev pub asr32 : ℕ → ℕ → ℕ
asr32 a k = if ltb a (2 ^ 31) then a / 2 ^ k else 2 ^ 32 - 1 - (2 ^ 32 - 1 - a) / 2 ^ k

-- The conversion of an `int32_t` to `int64_t`.
abbrev pub sext32 : ℕ → ℕ
sext32 a = if ltb a (2 ^ 31) then a else a + (2 ^ 64 - 2 ^ 32)

-- `llabs`; at the least value, which has no absolute value, the pattern stays.
abbrev pub llabs : ℕ → ℕ
llabs a = if ltb a (2 ^ 63) then a else 2 ^ 64 - a
