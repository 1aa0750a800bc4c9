-- ===== src/Hook/Exec.antt =====
-- Where a run of words goes, as the reference for the code that the hook writes: the words are
-- executed from the first until one of them leaves the run.
use zeldar.Base.{
  ℕ, ◌+◌, ◌*◌, ◌%◌, ◌^◌, Bool, Option, none, some, List, [], ◌∷◌, ◌==◌, ◌&&◌, if◌then◌else◌, add64,
}
use zeldar.Armv8.Isa.{field, branch_target}

-- `LDR X17, #0x8` and `BR X17` with the literal behind them, at an address that the 8 bytes of the
-- literal are aligned for.
unfoldable pub literal_jump : ℕ → List ℕ → Option ℕ
literal_jump at (br ∷ low ∷ high ∷ rest) =
    if br == 0xd61f0220 && add64 at 8 % 8 == 0 then some (low + high * 2 ^ 32) else none
literal_jump at rest = none

-- The address that the words at `at` continue at, through `NOP`, `B` and the jump by a literal.
unfoldable pub leaves : ℕ → List ℕ → Option ℕ
unfolding literal_jump
leaves at [] = none
leaves at (word ∷ rest) =
    if word == 0xd503201f
    then leaves (add64 at 4) rest
    else if field 26 6 word == 0b000101
    then some (branch_target at word)
    else if word == 0x58000051
    then literal_jump at rest
    else none

pub record Call : Type 0 where
  pub target : ℕ
  pub link : ℕ

-- The long call: `LDR X17, #12`, `ADR X30, #16`, `BR X17` and the literal.
unfoldable pub literal_call : ℕ → List ℕ → Option Call
literal_call at (adr ∷ br ∷ low ∷ high ∷ rest) =
    if adr == 0x1000009e && br == 0xd61f0220 && add64 at 12 % 8 == 0
    then some (record { target = low + high * 2 ^ 32; link = add64 (add64 at 4) 16 })
    else none
literal_call at rest = none

-- The call that the words at `at` make: `BL`, or the long call, behind any `NOP`.
unfoldable pub calls : ℕ → List ℕ → Option Call
unfolding literal_call
calls at [] = none
calls at (word ∷ rest) =
    if word == 0xd503201f
    then calls (add64 at 4) rest
    else if field 26 6 word == 0b100101
    then some (record { target = branch_target at word; link = add64 at 4 })
    else if word == 0x58000071
    then literal_call at rest
    else none

-- The address that the words at `at` continue at, behind any `NOP`, when they start with a conditional
-- branch whose condition holds or does not: past the word behind the branch, out to its target, or
-- with the word behind it. `goes` is where the branch goes, by the field of its kind.
unfoldable pub cond_exits : (ℕ → ℕ → ℕ) → Bool → ℕ → List ℕ → Option ℕ
unfolding leaves
cond_exits goes taken at [] = none
cond_exits goes taken at (word ∷ []) = if taken then some (goes at word) else some (add64 at 4)
cond_exits goes taken at (word ∷ behind ∷ rest) =
    let after_nop = cond_exits goes taken (add64 at 4) (behind ∷ rest) in
    if word == 0xd503201f
    then after_nop
    else if taken
    then (if goes at word == add64 at 8 then leaves (add64 at 8) rest else some (goes at word))
    else leaves (add64 at 4) (behind ∷ rest)
