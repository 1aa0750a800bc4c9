-- ===== src/Armv8/Register.antt =====
-- Registers, src/lib/armv8/register.hpp.
use zeldar.Base.{ℕ, ◌%◌, ◌^◌, Bool, true, false, nat_of}

pub data RegisterKind : Type 0 where
  w x : RegisterKind

pub record Register : Type 0 where
  pub kind : RegisterKind
  pub index : ℕ

-- The constructor: the index is kept in a bit field of 7 bits.
abbrev pub register : RegisterKind → ℕ → Register
register kind index = record { kind = kind; index = index % 2 ^ 7 }

unfoldable pub is64 : Register → Bool
is64 r = elim r.kind [ RegisterKind.x ↦ true | RegisterKind.w ↦ false ]

unfoldable pub is32 : Register → Bool
is32 r = elim r.kind [ RegisterKind.x ↦ false | RegisterKind.w ↦ true ]

-- `Is64()` where it sets a field.
abbrev pub sf_of : Register → ℕ
sf_of r = nat_of (is64 r)

abbrev pub lr : Register
lr = register RegisterKind.x 30

abbrev pub sp : Register
sp = register RegisterKind.x 31

-- -1 as `uchar` is 255.
abbrev pub none32 : Register
none32 = register RegisterKind.w 255

abbrev pub none64 : Register
none64 = register RegisterKind.x 255
