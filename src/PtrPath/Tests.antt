-- ===== src/PtrPath/Tests.antt =====
-- A path of two offsets in src/lib/util/ptr_path.hpp, whole and broken.
use zeldar.Base.{ℕ, ◌≡◌, ◌⊎◌, [], ◌∷◌, ◌==◌, if◌then◌else◌}
use zeldar.PtrPath.{follow_safe, follow}
use zeldar.PtrPath.Follow.{IsBroken, follow_safe-follow}

-- One pointer, at the address 0x1010.
abbrev one_pointer : ℕ → ℕ
one_pointer a = if a == 0x1010 then 0x2000 else 0

follow_safe-follow_example :
    ((¬ IsBroken one_pointer (0x10 ∷ 8 ∷ 4 ∷ []) 0x1000)
      × (follow_safe one_pointer (0x10 ∷ 8 ∷ 4 ∷ []) 0x1000
          ≡ follow one_pointer (0x10 ∷ 8 ∷ 4 ∷ []) 0x1000))
    ⊎ (IsBroken one_pointer (0x10 ∷ 8 ∷ 4 ∷ []) 0x1000
        × (follow_safe one_pointer (0x10 ∷ 8 ∷ 4 ∷ []) 0x1000 ≡ 0))
follow_safe-follow_example = follow_safe-follow one_pointer (0x10 ∷ 8 ∷ 4 ∷ []) 0x1000
