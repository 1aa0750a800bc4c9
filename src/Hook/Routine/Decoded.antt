-- ===== src/Hook/Routine/Decoded.antt =====
-- How the words of an inline hook's entry are decoded where they stand.
use zeldar.Base.{ℕ, ◌-◌, ◌^◌, ◌≡◌, refl, arith, some, [], ◌∷◌}
use zeldar.Armv8.BitSet.{set_bits}
use zeldar.Armv8.Isa.{field, branch_target}
use zeldar.Armv8.Register.{lr, sp}
use zeldar.Armv8.Encode.LoadStore.{stur_unscaled_immediate, ldur_unscaled_immediate}
use zeldar.Hook.Exec.{Call, calls, leaves}
use zeldar.Hook.Machine.{b, bl, stur, ldur, decode}

pub decode-stur :
    (at : ℕ)
    → decode at (stur_unscaled_immediate lr sp (2 ^ 32 - 0x10)) ≡ some (stur 30 (2 ^ 64 - 0x10))
unfolding decode stur_unscaled_immediate set_bits
decode-stur at = refl

pub decode-ldur :
    (at : ℕ)
    → decode at (ldur_unscaled_immediate lr sp (2 ^ 32 - 0x10)) ≡ some (ldur 30 (2 ^ 64 - 0x10))
unfolding decode ldur_unscaled_immediate set_bits
decode-ldur at = refl

decode-field_b :
    (at word : ℕ) → field 26 6 word ≡ 5 → decode at word ≡ some (b (branch_target at word))
unfolding decode
decode-field_b at word h = ground arith

decode-field_bl :
    (at word : ℕ) → field 26 6 word ≡ 37 → decode at word ≡ some (bl (branch_target at word))
unfolding decode
decode-field_bl at word h = ground arith

-- One word that goes somewhere at once is a `B` there.
pub decode-leaves : (at word a : ℕ) → leaves at (word ∷ []) ≡ some a → decode at word ≡ some (b a)
unfolding leaves
decode-leaves at word a h = ground (arith, decode-field_b at word)

-- One word that makes a call is a `BL`.
pub decode-calls :
    (at word : ℕ) (call : Call)
    → calls at (word ∷ []) ≡ some call
    → decode at word ≡ some (bl call.target)
unfolding calls
decode-calls at word call h = ground (arith, decode-field_bl at word)
