-- ===== src/PtrPath.antt =====
-- Following a path of offsets through pointers, src/lib/util/ptr_path.hpp. The memory is the function
-- from an address to the pointer stored there; the offsets are template arguments in the source.
pub mod Follow
mod Tests
use zeldar.Base.{ℕ, List, [], ◌∷◌, ◌==◌, if◌then◌else◌, add64, Outcome, ok, ◌>>=◌}
use zeldar.MemLayout.{Scan, get_target_start}

module _ (memory : ℕ → ℕ) where
  -- The loops over the offsets but the first.
  unfoldable pub follow_safe_rest : List ℕ → ℕ → ℕ
  follow_safe_rest [] cur_offset = cur_offset
  follow_safe_rest (o ∷ os) cur_offset =
      let next = memory cur_offset in
      let rest = follow_safe_rest os (add64 next o) in if next == 0 then 0 else rest

  unfoldable pub follow_rest : List ℕ → ℕ → ℕ
  follow_rest [] cur_offset = cur_offset
  follow_rest (o ∷ os) cur_offset = follow_rest os (add64 (memory cur_offset) o)

  unfoldable pub follow_safe : List ℕ → ℕ → ℕ
  unfolding follow_safe_rest
  follow_safe [] ptr = ptr
  follow_safe (o ∷ os) ptr = if ptr == 0 then 0 else follow_safe_rest os (add64 ptr o)

  unfoldable pub follow : List ℕ → ℕ → ℕ
  unfolding follow_rest
  follow [] ptr = ptr
  follow (o ∷ os) ptr = if ptr == 0 then 0 else follow_rest os (add64 ptr o)

  -- The same from the start of the main module.
  unfoldable pub follow_safe_target : List ℕ → Scan → Outcome ℕ
  unfolding follow_safe get_target_start
  follow_safe_target offsets s = do start ← get_target_start s; ok (follow_safe offsets start)

  unfoldable pub follow_target : List ℕ → Scan → Outcome ℕ
  unfolding follow get_target_start
  follow_target offsets s = do start ← get_target_start s; ok (follow offsets start)

  -- The `Follow` with a type reads the value at the end of the path.
  unfoldable pub follow_value : List ℕ → ℕ → ℕ
  unfolding follow
  follow_value offsets ptr = memory (follow offsets ptr)
