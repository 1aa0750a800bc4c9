-- ===== src/Hook/Encoded.antt =====
-- Where a branch that the encoders of src/lib/armv8 build over a 64-bit distance goes.
use zeldar.Base.{ℕ, ◌-◌, ◌≤◌, ◌<◌, ◌%◌, ◌^◌, ◌≡◌, ◌⊎◌, ap, ◌∙◌, arith, some, [], ◌∷◌, add64, u32}
use zeldar.Armv8.Isa.{field, branch_target, signed}
use zeldar.Armv8.Encode.Branches.{branch, branch_link}
use zeldar.Armv8.Encode.Laws.Immediate.{branch-branch_target, branch_lem, branch_link_lem}
use zeldar.Hook.Exec.{leaves, calls}

-- A word with the fields of `B`, and one with those of `BL`.
leaves-field :
    (at word : ℕ) → field 26 6 word ≡ 5 → leaves at (word ∷ []) ≡ some (branch_target at word)
unfolding leaves
leaves-field at word h = ground arith

calls-field :
    (at word : ℕ)
    → field 26 6 word ≡ 37
    → calls at (word ∷ []) ≡ some (record { target = branch_target at word; link = add64 at 4 })
unfolding calls
calls-field at word h = ground arith

-- A distance that 26 bits of words can hold, as a signed word of 64 bits.
abbrev pub IsNear : ℕ → Type 0
IsNear distance =
    (distance % 4 ≡ 0)
    × ((distance < 2 ^ 27) ⊎ ((2 ^ 64 - 2 ^ 27 ≤ distance) × (distance < 2 ^ 64)))

branch-target :
    (at distance : ℕ)
    → IsNear distance
    → (branch_target at (branch (u32 distance)) ≡ add64 at distance)
      × (branch_target at (branch_link (u32 distance)) ≡ add64 at distance)
branch-target at distance (align, near) =
    let (b, bl) = branch-branch_target at (u32 distance) (omega arith) (omega arith) in
    let same : add64 at (signed 32 (u32 distance)) ≡ add64 at distance = ground arith in
    (b ∙ same, bl ∙ same)

pub branch-leaves :
    (at distance : ℕ)
    → IsNear distance
    → leaves at (branch (u32 distance) ∷ []) ≡ some (add64 at distance)
branch-leaves at distance near =
    leaves-field at (branch (u32 distance)) (omega (arith, branch_lem (u32 distance)))
    ∙ ap some (branch-target at distance near).0

pub branch_link-calls :
    (at distance : ℕ)
    → IsNear distance
    → calls at (branch_link (u32 distance) ∷ [])
      ≡ some (record { target = add64 at distance; link = add64 at 4 })
branch_link-calls at distance near =
    calls-field at (branch_link (u32 distance)) (omega (arith, branch_link_lem (u32 distance)))
    ∙ ap (λ a. some (record { target = a; link = add64 at 4 })) (branch-target at distance near).1
