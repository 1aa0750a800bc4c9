-- ===== src/Patch/Written.antt =====
-- What the writes of src/lib/patch/stream_patcher.hpp and code_patcher.hpp leave in memory.
use zeldar.Base.{
  ℕ, suc, ◌+◌, ◌*◌, ◌≤◌, ◌<◌, ◌^◌, ◌≡◌, inl, inr, refl, sym, ap, ◌∙◌, arith, List, [], ◌∷◌, ◌++◌,
  map, length, ◌==◌, add64, sub64, length-append, Bool-cases,
}
use zeldar.RwPages.{Claim}
use zeldar.Patch.{
  Machine, Stream, store_bytes, load_bytes, write_at, ro_from_addr, rw_from_addr, addr_from_ro,
  write, seek_rel, seek, seek_pointer, relative_address_from_base, relative_address_from_pointer,
  word_bytes, write_inst,
}
use zeldar.Patch.Memory.{load_bytes-store_bytes}
use zeldar.Patch.Flushed.{write_op, run, run_op}

unfoldable pub concat : List (List ℕ) → List ℕ
concat [] = []
concat (v ∷ vs) = v ++ concat vs

store_bytes-append :
    (a : ℕ) (xs ys : List ℕ) (memory : ℕ → ℕ)
    → a < 2 ^ 64
    → store_bytes a (xs ++ ys) memory
      ≡ store_bytes (add64 a (length xs)) ys (store_bytes a xs memory)
unfolding store_bytes
store_bytes-append a [] ys memory h = let same : add64 a 0 ≡ a = omega arith in rw same refl
store_bytes-append a (x ∷ xs) ys memory h =
    let same : add64 (add64 a 1) (length xs) ≡ add64 a (suc (length xs)) = omega arith in
    store_bytes-append (add64 a 1) xs ys _ (omega arith) ∙ rw same refl

-- Four bytes as an instruction.
unfoldable pub word_of : List ℕ → ℕ
word_of (a ∷ b ∷ c ∷ d ∷ []) = a + b * 256 + c * 2 ^ 16 + d * 2 ^ 24
word_of bytes = 0

word_of-word_bytes : (w : ℕ) → w < 2 ^ 32 → word_of (word_bytes w) ≡ w
unfolding word_of word_bytes
word_of-word_bytes w h = omega arith

module _ (pages : Claim) where
  rw_from_addr_lt : (a : ℕ) → rw_from_addr pages a < 2 ^ 64
  unfolding rw_from_addr
  rw_from_addr_lt a = omega arith

  rw_from_addr-add64 : (a n : ℕ) → rw_from_addr pages (add64 a n) ≡ add64 (rw_from_addr pages a) n
  unfolding rw_from_addr
  rw_from_addr-add64 a n = omega arith

  seek_rel-current :
      (a : ℕ) (s : Stream) → s.current < 2 ^ 64 → (seek_rel pages a s).current ≡ add64 a s.current
  unfolding seek_rel
  seek_rel-current a s h = elim (Bool-cases (a == 0)) [
    | inl e ↦ rw e (ground arith)
    | inr e ↦ rw e refl
  ]

  -- Writes in a row are one write of the bytes in a row.
  run-concat :
      (vs : List (List ℕ)) (s : Stream)
      → s.current < 2 ^ 64
      → let s' = run pages (map write_op vs) s in
        (s'.machine.memory
          ≡ store_bytes (rw_from_addr pages s.current) (concat vs) s.machine.memory)
        × (s'.current ≡ add64 s.current (length (concat vs)))
  unfolding run run_op concat write write_at
  run-concat [] s h = (refl, omega arith)
  run-concat (v ∷ vs) s h =
      let (m, c) = run-concat vs (write pages v s) (omega arith) in
      let moved : rw_from_addr pages (add64 s.current (length v))
          ≡ add64 (rw_from_addr pages s.current) (length v) =
        rw_from_addr-add64 s.current (length v) in
      (
        m
            ∙ (rw moved (
                sym (
                  store_bytes-append (rw_from_addr pages s.current) v (concat vs) s.machine.memory
                    (rw_from_addr_lt s.current)))),
        omega (arith, length-append v (concat vs)),
      )

  -- Values written one after the other are read back one after the other from where the first one
  -- was written, and the patcher stands behind the last one.
  pub run-load_bytes :
      (vs : List (List ℕ)) (s : Stream)
      → s.current < 2 ^ 64
      → length (concat vs) ≤ 2 ^ 64
      → let s' = run pages (map write_op vs) s in
        (load_bytes (length (concat vs)) (rw_from_addr pages s.current) s'.machine.memory
          ≡ concat vs)
        × (s'.current ≡ add64 s.current (length (concat vs)))
  run-load_bytes vs s h fits =
      let (m, c) = run-concat vs s h in
      (
        rw m (
            load_bytes-store_bytes (rw_from_addr pages s.current) (concat vs) s.machine.memory
              (rw_from_addr_lt s.current) fits),
        c,
      )

  -- A new position, given as an offset or as a pointer into the pages, is where the next value goes.
  seek-current :
      (a : ℕ) (s : Stream)
      → s.current < 2 ^ 64
      → a < 2 ^ 64
      → pages.ro < 2 ^ 64
      → ((seek pages a s).current ≡ a) × ((seek_pointer pages (ro_from_addr pages a) s).current ≡ a)
  unfolding seek seek_pointer relative_address_from_base relative_address_from_pointer addr_from_ro
      ro_from_addr
  seek-current a s h small base = (
    seek_rel-current (sub64 a s.current) s h ∙ omega arith,
    seek_rel-current (sub64 (sub64 (add64 pages.ro a) pages.ro) s.current) s h ∙ omega arith,
  )

  -- The instruction at an offset of the pages.
  unfoldable pub inst_at : ℕ → Machine → ℕ
  unfolding rw_from_addr load_bytes
  inst_at addr k = word_of (load_bytes 4 (rw_from_addr pages addr) k.memory)

  pub write_inst-inst_at :
      (w : ℕ) (s : Stream)
      → w < 2 ^ 32
      → (inst_at s.current (write_inst pages w s).machine ≡ w)
        × ((write_inst pages w s).current ≡ add64 s.current 4)
  unfolding write_inst write write_at inst_at word_bytes
  write_inst-inst_at w s h = (
    ap word_of (
          load_bytes-store_bytes (rw_from_addr pages s.current) (word_bytes w) s.machine.memory
            (rw_from_addr_lt s.current) (omega arith))
        ∙ word_of-word_bytes w h,
    refl,
  )
