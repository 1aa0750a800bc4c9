-- ===== src/PtrPath/Follow.antt =====
-- The two ways of following a path in src/lib/util/ptr_path.hpp against each other.
use zeldar.Base.{
  ℕ, ◌≡◌, ◌≢◌, ◌⊎◌, inl, inr, refl, arith, Bool-cases, ==_iff, List, [], ◌∷◌, ◌==◌, add64,
}
use zeldar.PtrPath.{follow_safe_rest, follow_rest, follow_safe, follow}

module _ (memory : ℕ → ℕ) where
  -- A null pointer is read on the rest of the path, before the last offset is added.
  unfoldable pub HasNull : List ℕ → ℕ → Type 0
  HasNull [] cur_offset = ¬ Unit {0}
  HasNull (o ∷ os) cur_offset =
      (memory cur_offset ≡ 0) ⊎ ((memory cur_offset ≢ 0) × HasNull os (add64 (memory cur_offset) o))

  follow_rest-cases :
      (os : List ℕ) (cur_offset : ℕ)
      → ((¬ HasNull os cur_offset)
          × (follow_safe_rest memory os cur_offset ≡ follow_rest memory os cur_offset))
        ⊎ (HasNull os cur_offset × (follow_safe_rest memory os cur_offset ≡ 0))
  unfolding follow_safe_rest follow_rest HasNull
  follow_rest-cases [] cur_offset = inl (λ h. h tt, refl)
  follow_rest-cases (o ∷ os) cur_offset = elim (Bool-cases (memory cur_offset == 0)) [
    | inl e ↦ inr (inl (ground arith), rw e refl)
    | inr e ↦ elim (follow_rest-cases os (add64 (memory cur_offset) o)) [
      | inl (clear, same) ↦
          inl (λ h. elim h [ inl z ↦ ground arith | inr (ne, null) ↦ clear null ], rw e same)
      | inr (null, zero_end) ↦ inr (inr (ground arith, null), rw e zero_end)
    ]
  ]

  -- A null pointer is read on a path that starts at another pointer.
  unfoldable pub IsBroken : List ℕ → ℕ → Type 0
  unfolding HasNull
  IsBroken [] ptr = ¬ Unit {0}
  IsBroken (o ∷ os) ptr = (ptr ≢ 0) × HasNull os (add64 ptr o)

  -- On a path with no null pointer `FollowSafe` is `Follow`, and on a path with one it gives null.
  pub follow_safe-follow :
      (offsets : List ℕ) (ptr : ℕ)
      → ((¬ IsBroken offsets ptr) × (follow_safe memory offsets ptr ≡ follow memory offsets ptr))
        ⊎ (IsBroken offsets ptr × (follow_safe memory offsets ptr ≡ 0))
  unfolding follow_safe follow IsBroken
  follow_safe-follow [] ptr = inl (λ h. h tt, refl)
  follow_safe-follow (o ∷ os) ptr = elim (Bool-cases (ptr == 0)) [
    | inl e ↦ inl (λ (ne, null). ne ((==_iff ptr 0).0 e), rw e refl)
    | inr e ↦ elim (follow_rest-cases os (add64 ptr o)) [
      | inl (clear, same) ↦ inl (λ (ne, null). clear null, rw e same)
      | inr (null, zero_end) ↦ inr ((λ z. ground arith, null), rw e zero_end)
    ]
  ]
