-- ===== src/Patch/Bounds.antt =====
-- The bounds that src/lib/patch/random_access_patcher.hpp keeps, and what its destructor flushes.
use zeldar.Base.{
  ℕ, ◌+◌, ◌-◌, ◌≤◌, ◌<◌, ◌^◌, ◌≡◌, ◌⊎◌, inl, inr, refl, ◌∙◌, arith, true, false, ◌||◌, List, [],
  ◌∷◌, length, ◌==◌, add64, sub64, Bool-cases,
}
use zeldar.RwPages.{Claim}
use zeldar.Patch.{
  Machine, Random, uintptr_max, random_access_patcher, is_unset, set_lowest, set_highest,
  random_write, random_flush, write_at,
}
use zeldar.Patch.Flushed.{IsClean, flush_range-IsClean, write_at-IsClean}

-- The calls on a random access patcher.
pub data RandomOp : Type 0 where
  random_write_op : ℕ → List ℕ → RandomOp
  random_flush_op : RandomOp

unfoldable pub run_random_op : Claim → RandomOp → Random → Random
unfolding random_write random_flush
run_random_op pages (random_write_op addr v) s = random_write pages addr v s
run_random_op pages random_flush_op s = random_flush pages s

unfoldable pub run_random : Claim → List RandomOp → Random → Random
unfolding run_random_op
run_random pages [] s = s
run_random pages (op ∷ ops) s = run_random pages ops (run_random_op pages op s)

-- Every write ends below the address that stands for none.
unfoldable pub IsInside : List RandomOp → Type 0
IsInside [] = Unit
IsInside (random_write_op addr v ∷ ops) = (addr + length v < 2 ^ 64 - 1) × IsInside ops
IsInside (random_flush_op ∷ ops) = IsInside ops

module _ (pages : Claim) (memory : ℕ → ℕ) where
  -- No write yet, or the bytes that are not clean are between the bounds.
  unfoldable IsBounded : Random → Type 0
  IsBounded s =
      ((s.lowest ≡ 2 ^ 64 - 1)
        × (s.highest ≡ 2 ^ 64 - 1)
        × ((o : ℕ) → o < 2 ^ 64 → IsClean pages memory s.machine o))
      ⊎ ((s.lowest ≤ s.highest)
          × (s.highest < 2 ^ 64 - 1)
          × ((o : ℕ)
              → o < 2 ^ 64
              → IsClean pages memory s.machine o ⊎ ((s.lowest ≤ o) × (o < s.highest))))

  random_flush-IsClean :
      (s : Random) (o : ℕ)
      → o < 2 ^ 64
      → IsBounded s
      → IsClean pages memory (random_flush pages s).machine o
  unfolding IsBounded random_flush is_unset
  random_flush-IsClean s o h (inl (low, high, clean)) =
      let unset : (s.lowest == uintptr_max || s.highest == uintptr_max) ≡ true = ground arith in
      rw unset (clean o h)
  random_flush-IsClean s o h (inr (le, below, clean)) =
      let is_set : (s.lowest == uintptr_max || s.highest == uintptr_max) ≡ false = ground arith in
      rw is_set (
        flush_range-IsClean pages memory s.lowest (sub64 s.highest s.lowest) o s.machine
          (elim (clean o h) [ inl c ↦ inl c | inr inside ↦ inr (omega arith) ]) (omega arith))

  -- The bounds after a write.
  bounds_lem :
      (addr size : ℕ) (s : Random)
      → addr + size < 2 ^ 64 - 1
      → IsBounded s
      → let s' = set_highest (add64 addr size) (set_lowest addr s) in
        (s'.lowest ≤ addr) × (addr + size ≤ s'.highest) × (s'.highest < 2 ^ 64 - 1)
  unfolding IsBounded set_lowest set_highest is_unset
  bounds_lem addr size s fits (inl (low, high, clean)) = (ground arith, ground arith, ground arith)
  bounds_lem addr size s fits (inr (le, below, clean)) = (ground arith, ground arith, ground arith)

  -- The bounds after a write hold what the bounds before it held.
  widened :
      (addr size : ℕ) (s : Random)
      → addr + size < 2 ^ 64 - 1
      → IsBounded s
      → let s' = set_highest (add64 addr size) (set_lowest addr s) in
        (o : ℕ)
        → o < 2 ^ 64
        → IsClean pages memory s.machine o ⊎ ((s'.lowest ≤ o) × (o < s'.highest))
  unfolding IsBounded set_lowest set_highest is_unset
  widened addr size s fits (inl (low, high, clean)) = λ o h. inl (clean o h)
  widened addr size s fits (inr (le, below, clean)) =
      λ o h. elim (clean o h) [ inl c ↦ inl c | inr (from, to) ↦ inr (ground arith, ground arith) ]

  made-IsBounded :
      (addr : ℕ) (v : List ℕ) (s : Random)
      → s.lowest ≤ addr
      → addr + length v ≤ s.highest
      → s.highest < 2 ^ 64 - 1
      → ((o : ℕ)
          → o < 2 ^ 64
          → IsClean pages memory s.machine o ⊎ ((s.lowest ≤ o) × (o < s.highest)))
      → IsBounded (record s { machine = write_at pages addr v s.machine })
  unfolding IsBounded
  made-IsBounded addr v s low high below clean = inr (
    omega arith,
    below,
    λ o h. elim (clean o h) [
      | inl c ↦ elim (write_at-IsClean pages memory addr o v s.machine (omega arith) c) [
        | inl c' ↦ inl c'
        | inr inside ↦ inr (omega arith)
      ]
      | inr inside ↦ inr inside
    ],
  )

  random_flush_bounds :
      (s : Random)
      → ((random_flush pages s).lowest ≡ s.lowest) × ((random_flush pages s).highest ≡ s.highest)
  unfolding random_flush
  random_flush_bounds s = elim (Bool-cases (is_unset s)) [
    | inl e ↦ rw e (refl, refl)
    | inr e ↦ rw e (refl, refl)
  ]

  kept-IsBounded :
      (s s' : Random)
      → s'.lowest ≡ s.lowest
      → s'.highest ≡ s.highest
      → ((o : ℕ) → o < 2 ^ 64 → IsClean pages memory s'.machine o)
      → IsBounded s
      → IsBounded s'
  unfolding IsBounded
  kept-IsBounded s s' low high clean (inl (l, h, _)) = inl (low ∙ l, high ∙ h, clean)
  kept-IsBounded s s' low high clean (inr (le, below, _)) =
      inr (omega arith, omega arith, λ o small. inl (clean o small))

  random_flush-IsBounded : (s : Random) → IsBounded s → IsBounded (random_flush pages s)
  random_flush-IsBounded s b =
      let (low, high) = random_flush_bounds s in
      kept-IsBounded s (random_flush pages s) low high (λ o h. random_flush-IsClean s o h b) b

  random_write-IsBounded :
      (addr : ℕ) (v : List ℕ) (s : Random)
      → addr + length v < 2 ^ 64 - 1
      → IsBounded s
      → IsBounded (random_write pages addr v s)
  unfolding random_write
  random_write-IsBounded addr v s fits b =
      let (low, high, below) = bounds_lem addr (length v) s fits b in
      made-IsBounded addr v (set_highest (add64 addr (length v)) (set_lowest addr s)) low high below
        (widened addr (length v) s fits b)

  run_random-IsBounded :
      (ops : List RandomOp) (s : Random)
      → IsInside ops
      → IsBounded s
      → IsBounded (run_random pages ops s)
  unfolding run_random run_random_op IsInside
  run_random-IsBounded [] s inside b = b
  run_random-IsBounded (random_write_op addr v ∷ ops) s (fits, inside) b =
      run_random-IsBounded ops (random_write pages addr v s) inside
        (random_write-IsBounded addr v s fits b)
  run_random-IsBounded (random_flush_op ∷ ops) s inside b =
      run_random-IsBounded ops (random_flush pages s) inside (random_flush-IsBounded s b)

start-IsBounded : (pages : Claim) (k : Machine) → IsBounded pages k.memory (random_access_patcher k)
unfolding IsBounded IsClean
start-IsBounded pages k = inl (refl, refl, λ o h. inl refl)

-- After any writes that end below the last address, with flushes between them, and the destructor,
-- each byte of the pages has the value from before the patcher, or it has been flushed by its one
-- address and invalidated by its other since it was last written.
pub run_random-IsClean :
    (pages : Claim) (ops : List RandomOp) (k : Machine) (o : ℕ)
    → IsInside ops
    → o < 2 ^ 64
    → IsClean pages k.memory
        (random_flush pages (run_random pages ops (random_access_patcher k))).machine
        o
run_random-IsClean pages ops k o inside h =
    random_flush-IsClean pages k.memory (run_random pages ops (random_access_patcher k)) o h (
      run_random-IsBounded pages k.memory ops (random_access_patcher k) inside
        (start-IsBounded pages k))
