-- ===== src/Patch/Flushed.antt =====
-- What the destructors of src/lib/patch leave behind: every byte that a patcher changed is flushed
-- from the data cache and invalidated in the instruction cache.
use zeldar.Base.{
  ℕ, ◌+◌, ◌≤◌, ◌<◌, ◌^◌, ◌≡◌, ◌⊎◌, inl, inr, refl, ◌∙◌, arith, List, [], ◌∷◌, length, ◌==◌, leb,
  add64, sub64, Bool-cases,
}
use zeldar.RwPages.{Claim}
use zeldar.Patch.{
  Effect, wrote, dcache_flush, icache_invalidate, Machine, Stream, write_at, flush_range,
  ro_from_addr, rw_from_addr, stream_patcher, flush, write, seek_rel, seek, seek_pointer,
  relative_address_from_base, relative_address_from_pointer,
}
use zeldar.Patch.Memory.{store_bytes_outside}

-- Whether an address has been flushed from the data cache since it was last written.
unfoldable pub IsFlushed : ℕ → List Effect → Type 0
IsFlushed a [] = ¬ Unit {0}
IsFlushed a (wrote start size ∷ effects) = (size ≤ sub64 a start) × IsFlushed a effects
IsFlushed a (dcache_flush start size ∷ effects) = (sub64 a start < size) ⊎ IsFlushed a effects
IsFlushed a (icache_invalidate start size ∷ effects) = IsFlushed a effects

-- Whether the address `ro` has been invalidated in the instruction cache since the same byte was last
-- written at `rw_addr`.
unfoldable pub IsInvalidated : ℕ → ℕ → List Effect → Type 0
IsInvalidated rw_addr ro [] = ¬ Unit {0}
IsInvalidated rw_addr ro (wrote start size ∷ effects) =
    (size ≤ sub64 rw_addr start) × IsInvalidated rw_addr ro effects
IsInvalidated rw_addr ro (icache_invalidate start size ∷ effects) =
    (sub64 ro start < size) ⊎ IsInvalidated rw_addr ro effects
IsInvalidated rw_addr ro (dcache_flush start size ∷ effects) = IsInvalidated rw_addr ro effects

-- The calls on a stream patcher.
pub data Op : Type 0 where
  write_op : List ℕ → Op
  seek_rel_op : ℕ → Op
  seek_op : ℕ → Op
  seek_pointer_op : ℕ → Op

unfoldable pub run_op : Claim → Op → Stream → Stream
unfolding write seek_rel seek seek_pointer
run_op pages (write_op v) s = write pages v s
run_op pages (seek_rel_op a) s = seek_rel pages a s
run_op pages (seek_op a) s = seek pages a s
run_op pages (seek_pointer_op p) s = seek_pointer pages p s

unfoldable pub run : Claim → List Op → Stream → Stream
unfolding run_op
run pages [] s = s
run pages (op ∷ ops) s = run pages ops (run_op pages op s)

-- The bytes that the calls write.
unfoldable pub op_size : Op → ℕ
op_size (write_op v) = length v
op_size (seek_rel_op a) = 0
op_size (seek_op a) = 0
op_size (seek_pointer_op p) = 0

unfoldable pub run_size : List Op → ℕ
unfolding op_size
run_size [] = 0
run_size (op ∷ ops) = op_size op + run_size ops

module _ (pages : Claim) where
  -- The byte at an offset is as it was, or both caches have been told since it was last written.
  unfoldable pub IsClean : (ℕ → ℕ) → Machine → ℕ → Type 0
  unfolding IsFlushed IsInvalidated ro_from_addr rw_from_addr
  IsClean memory k o =
      (k.memory (rw_from_addr pages o) ≡ memory (rw_from_addr pages o))
      ⊎ (IsFlushed (rw_from_addr pages o) k.effects
          × IsInvalidated (rw_from_addr pages o) (ro_from_addr pages o) k.effects)

  -- Between the calls: the bytes that are not clean are the `n` bytes before the current one.
  unfoldable IsPending : (ℕ → ℕ) → Stream → ℕ → Type 0
  unfolding IsClean
  IsPending memory s n =
      (s.start < 2 ^ 64)
      × (s.current ≡ add64 s.start n)
      × ((o : ℕ) → IsClean memory s.machine o ⊎ (sub64 o s.start < n))

  -- A flush of a range makes its bytes clean and leaves the others so.
  pub flush_range-IsClean :
      (memory : ℕ → ℕ) (start size o : ℕ) (k : Machine)
      → IsClean memory k o ⊎ (sub64 o start < size)
      → start < 2 ^ 64
      → IsClean memory (flush_range pages start size k) o
  unfolding IsClean flush_range IsFlushed IsInvalidated ro_from_addr rw_from_addr
  flush_range-IsClean memory start size o k (inl (inl e)) h = inl e
  flush_range-IsClean memory start size o k (inl (inr (f, i))) h = inr (inr f, inr i)
  flush_range-IsClean memory start size o k (inr inside) h =
      inr (inl (omega arith), inl (omega arith))

  -- A write makes pending bytes of its own.
  pub write_at-IsClean :
      (memory : ℕ → ℕ) (addr o : ℕ) (v : List ℕ) (k : Machine)
      → addr < 2 ^ 64
      → IsClean memory k o
      → IsClean memory (write_at pages addr v k) o ⊎ (sub64 o addr < length v)
  unfolding IsClean write_at rw_from_addr IsFlushed IsInvalidated
  write_at-IsClean memory addr o v k h clean = elim (Bool-cases (leb (length v) (sub64 o addr))) [
    | inl far ↦
        let kept =
          store_bytes_outside (rw_from_addr pages addr) v (rw_from_addr pages o) k.memory
            (omega arith) (ground arith) in
        elim clean [
          | inl e ↦ inl (inl (kept ∙ e))
          | inr (f, i) ↦ inl (inr ((ground arith, f), (ground arith, i)))
        ]
    | inr near ↦ inr (ground arith)
  ]

  -- A flush leaves nothing pending.
  flush-IsClean :
      (memory : ℕ → ℕ) (s : Stream) (n o : ℕ)
      → IsPending memory s n
      → n < 2 ^ 64
      → IsClean memory (flush pages s).machine o
  unfolding flush IsPending
  flush-IsClean memory s n o (small, at, rest) h = elim (Bool-cases (s.start == s.current)) [
    | inl e ↦ rw e (elim (rest o) [ inl clean ↦ clean | inr inside ↦ absurd (ground arith) ])
    | inr e ↦
        let size : sub64 s.current s.start ≡ n = omega arith in
        rw (e, size) (flush_range-IsClean memory s.start n o s.machine (rest o) small)
  ]

  write-IsPending :
      (memory : ℕ → ℕ) (s : Stream) (v : List ℕ) (n : ℕ)
      → IsPending memory s n
      → n + length v < 2 ^ 64
      → IsPending memory (write pages v s) (n + length v)
  unfolding write IsPending
  write-IsPending memory s v n (small, at, rest) h = (
    small,
    omega arith,
    λ o. elim (rest o) [
      | inl clean ↦ elim (write_at-IsClean memory s.current o v s.machine (omega arith) clean) [
        | inl clean' ↦ inl clean'
        | inr inside ↦ inr (omega arith)
      ]
      | inr inside ↦ inr (omega arith)
    ],
  )

  -- The position after a flush is free to be set.
  moved-IsPending :
      (memory : ℕ → ℕ) (s : Stream) (a n : ℕ)
      → a < 2 ^ 64
      → IsPending memory s n
      → n < 2 ^ 64
      → IsPending memory (record (flush pages s) { start = a; current = a }) 0
  unfolding IsPending
  moved-IsPending memory s a n small pending h =
      (small, omega arith, λ o. inl (flush-IsClean memory s n o pending h))

  seek_rel-IsPending :
      (memory : ℕ → ℕ) (s : Stream) (a n : ℕ)
      → IsPending memory s n
      → n < 2 ^ 64
      → (m : ℕ) × (m ≤ n) × IsPending memory (seek_rel pages a s) m
  unfolding seek_rel
  seek_rel-IsPending memory s a n pending h = elim (Bool-cases (a == 0)) [
    | inl e ↦ rw e (n, omega arith, pending)
    | inr e ↦
        rw e
          (0, omega arith, moved-IsPending memory s (add64 a s.current) n (omega arith) pending h)
  ]

  run_op-IsPending :
      (memory : ℕ → ℕ) (op : Op) (s : Stream) (n : ℕ)
      → IsPending memory s n
      → n + op_size op < 2 ^ 64
      → (m : ℕ) × (m ≤ n + op_size op) × IsPending memory (run_op pages op s) m
  unfolding run_op op_size seek seek_pointer
  run_op-IsPending memory (write_op v) s n pending h =
      (n + length v, omega arith, write-IsPending memory s v n pending h)
  run_op-IsPending memory (seek_rel_op a) s n pending h =
      let (m, le, p) = seek_rel-IsPending memory s a n pending (omega arith) in (m, omega arith, p)
  run_op-IsPending memory (seek_op a) s n pending h =
      let (m, le, p) =
        seek_rel-IsPending memory s (relative_address_from_base a s) n pending (omega arith) in
      (m, omega arith, p)
  run_op-IsPending memory (seek_pointer_op p) s n pending h =
      let (m, le, q) =
        seek_rel-IsPending memory s (relative_address_from_pointer pages p s) n pending
          (omega arith) in
      (m, omega arith, q)

  run-IsPending :
      (memory : ℕ → ℕ) (ops : List Op) (s : Stream) (n : ℕ)
      → IsPending memory s n
      → n + run_size ops < 2 ^ 64
      → (m : ℕ) × (m < 2 ^ 64) × IsPending memory (run pages ops s) m
  unfolding run run_size
  run-IsPending memory [] s n pending h = (n, omega arith, pending)
  run-IsPending memory (op ∷ ops) s n pending h =
      let (m, le, p) = run_op-IsPending memory op s n pending (omega arith) in
      run-IsPending memory ops (run_op pages op s) m p (omega arith)

  start-IsPending :
      (start : ℕ) (k : Machine) → start < 2 ^ 64 → IsPending k.memory (stream_patcher start k) 0
  unfolding IsPending IsClean
  start-IsPending start k h = (h, omega arith, λ o. inl (inl refl))

  -- After any calls that write less than 2 ^ 64 bytes, and the destructor, each byte of the pages is
  -- as before the patcher, or it has been
  -- flushed by its one address and invalidated by its other since it was last written.
  pub run-IsClean :
      (ops : List Op) (start : ℕ) (k : Machine) (o : ℕ)
      → start < 2 ^ 64
      → run_size ops < 2 ^ 64
      → IsClean k.memory (flush pages (run pages ops (stream_patcher start k))).machine o
  run-IsClean ops start k o h few =
      let (m, small, pending) =
        run-IsPending k.memory ops (stream_patcher start k) 0 (start-IsPending start k h)
          (omega arith) in
      flush-IsClean k.memory (run pages ops (stream_patcher start k)) m o pending small
