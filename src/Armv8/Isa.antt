-- ===== src/Armv8/Isa.antt =====
-- What an A64 instruction word means, as the architecture's encoding tables give it: the reference
-- that the encoders and the hook's rewriting are compared with. Addresses and offsets are patterns
-- of 64 bits.
use zeldar.Base.{ℕ, ◌+◌, ◌-◌, ◌*◌, ◌/◌, ◌%◌, ◌^◌, ltb, if◌then◌else◌, ◌==◌, add64}

-- `count` bits of a word at `low`.
abbrev pub field : ℕ → ℕ → ℕ → ℕ
field low count word = word / 2 ^ low % 2 ^ count

-- The number of `count` bits, read as a signed number.
abbrev pub signed : ℕ → ℕ → ℕ
signed count n = if ltb n (2 ^ (count - 1)) then n else n + (2 ^ 64 - 2 ^ count)

-- Where `B` and `BL` at `pc` go: 26 bits, a multiple of 4.
abbrev pub branch_target : ℕ → ℕ → ℕ
branch_target pc word = add64 pc (signed 28 (field 0 26 word * 4))

-- `B.cond`, `CBZ`, `CBNZ`, and the literal of `LDR` (literal): 19 bits at 5, a multiple of 4.
abbrev pub target19 : ℕ → ℕ → ℕ
target19 pc word = add64 pc (signed 21 (field 5 19 word * 4))

-- `TBZ` and `TBNZ`: 14 bits at 5, a multiple of 4.
abbrev pub target14 : ℕ → ℕ → ℕ
target14 pc word = add64 pc (signed 16 (field 5 14 word * 4))

-- The address that `ADR` computes: 19 high bits at 5 and 2 low bits at 29.
abbrev pub adr_address : ℕ → ℕ → ℕ
adr_address pc word = add64 pc (signed 21 (field 5 19 word * 4 + field 29 2 word))

-- The address that `ADRP` computes: the page of `pc` and 21 bits of pages.
abbrev pub adrp_address : ℕ → ℕ → ℕ
adrp_address pc word =
    add64 (pc / 2 ^ 12 * 2 ^ 12) (signed 33 ((field 5 19 word * 4 + field 29 2 word) * 2 ^ 12))

-- The immediate of `ADD` and `SUB` (immediate): 12 bits, shifted up by 12 where `sh` is set.
abbrev pub add_sub_value : ℕ → ℕ
add_sub_value word = if field 22 1 word == 1 then field 10 12 word * 2 ^ 12 else field 10 12 word
