-- ===== src/Files/Handles.antt =====
-- The handles that src/helpers/fsHelper.cpp leaves open, and its results.
use zeldar.Base.{
  ℕ, ◌+◌, ◌-◌, ◌≡◌, ◌↔◌, inl, inr, refl, ◌∙◌, arith, Bool, true, false, Bool-cases, some, not, ◌&&◌,
  if◌then◌else◌,
}
use zeldar.Files.{
  FileSystem, is_failure, mode_read, mode_write, is_file_exist, write_file_to_path, get_file_size,
}

-- How the calls of the file library change the number of open handles: opening adds one where it
-- succeeds, closing takes one away, and no other call changes it.
pub record HandleLaws {S : Type 0} (fs : FileSystem S) (open_count : S → ℕ) : Type 0 where
  pub of_delete : (s : S) → open_count (fs.delete_file s) ≡ open_count s
  pub of_create : (size : ℕ) (s : S) → open_count (fs.create_file size s).1 ≡ open_count s
  pub of_write :
      (handle size : ℕ) (s : S) → open_count (fs.write_file handle size s).1 ≡ open_count s
  pub of_read : (handle size : ℕ) (s : S) → open_count (fs.read_file handle size s).1 ≡ open_count s
  pub of_close : (handle : ℕ) (s : S) → open_count (fs.close_file handle s) ≡ open_count s - 1
  pub of_open :
      (mode : ℕ) (s : S)
      → open_count (fs.open_file mode s).2
        ≡ (if is_failure (fs.open_file mode s).0 then open_count s else open_count s + 1)

module _ {S : Type 0} (fs : FileSystem S) where
  -- The states before the calls that create, open and write.
  unfoldable pub before_create : S → S
  before_create s = if is_file_exist fs s then fs.delete_file s else s

  unfoldable pub before_open : ℕ → S → S
  unfolding before_create
  before_open size s = (fs.create_file size (before_create s)).1

  unfoldable pub before_write : ℕ → S → S
  unfolding before_open
  before_write size s = (fs.open_file mode_write (before_open size s)).2

  -- The file is created and opened, and the write fails.
  unfoldable pub write_fails : ℕ → S → Bool
  unfolding before_create before_open before_write
  write_fails size s =
      not (is_failure (fs.create_file size (before_create s)).0)
      && not (is_failure (fs.open_file mode_write (before_open size s)).0)
      && is_failure
          (fs.write_file (fs.open_file mode_write (before_open size s)).1 size
            (before_write size s)).0

module _ {S : Type 0} (fs : FileSystem S) (open_count : S → ℕ)
    (laws : HandleLaws fs open_count) where
  -- Opening, where it fails and where it succeeds.
  open_failed :
      (mode : ℕ) (s : S)
      → is_failure (fs.open_file mode s).0 ≡ true
      → open_count (fs.open_file mode s).2 ≡ open_count s
  open_failed mode s e = laws.of_open mode s ∙ rw e refl

  open_succeeded :
      (mode : ℕ) (s : S)
      → is_failure (fs.open_file mode s).0 ≡ false
      → open_count (fs.open_file mode s).2 ≡ open_count s + 1
  open_succeeded mode s e = laws.of_open mode s ∙ rw e refl

  -- Asking for the size of a file leaves as many handles open as before, also where the library does
  -- not give the size, and gives a size exactly if the file could be opened and the library gave it for
  -- the handle.
  pub get_file_size-open_count :
      (s : S)
      → (open_count (get_file_size fs s).1 ≡ open_count s)
        × ((n : ℕ)
            → ((get_file_size fs s).0 ≡ some n) ↔ (
                (is_failure (fs.open_file mode_read s).0 ≡ false)
                × (fs.get_file_size (fs.open_file mode_read s).1 (fs.open_file mode_read s).2
                    ≡ some n)))
  unfolding get_file_size
  get_file_size-open_count s = elim (Bool-cases (is_failure (fs.open_file mode_read s).0)) [
    | inl e ↦
        rw e
          (open_failed mode_read s e, λ n. (λ given. absurd (cc), λ (opened, given). absurd (cc)))
    | inr e ↦
        let closed = laws.of_close (fs.open_file mode_read s).1 (fs.open_file mode_read s).2 in
        let opened = open_succeeded mode_read s e in
        rw e (omega arith, λ n. (λ given. (refl, given), λ (own, given). given))
  ]

  before_open-open_count : (size : ℕ) (s : S) → open_count (before_open fs size s) ≡ open_count s
  unfolding before_open before_create
  before_open-open_count size s =
      laws.of_create size (before_create fs s) ∙ elim (Bool-cases (is_file_exist fs s)) [
        | inl e ↦ rw e (laws.of_delete s)
        | inr e ↦ rw e refl
      ]

  -- Writing a file never gives a success, and leaves one more handle open exactly if the file is
  -- created and opened and the write fails.
  pub write_file_to_path-open_count :
      (size : ℕ) (s : S)
      → (is_failure (write_file_to_path fs size s).0 ≡ true)
        × (open_count (write_file_to_path fs size s).1
            ≡ (if write_fails fs size s then open_count s + 1 else open_count s))
  unfolding write_file_to_path write_fails before_create before_open before_write
  write_file_to_path-open_count size s =
      let s₁ = before_create fs s in
      let s₂ = before_open fs size s in
      let s₃ = before_write fs size s in
      let handle = (fs.open_file mode_write s₂).1 in
      let kept = before_open-open_count size s in
      elim (Bool-cases (is_failure (fs.create_file size s₁).0)) [
        | inl e ↦ rw e (e, kept)
        | inr e ↦ elim (Bool-cases (is_failure (fs.open_file mode_write s₂).0)) [
          | inl o ↦ rw (e, o) (o, open_failed mode_write s₂ o ∙ kept)
          | inr o ↦
              let opened = open_succeeded mode_write s₂ o in
              let wrote = laws.of_write handle size s₃ in
              let closed = laws.of_close handle (fs.write_file handle size s₃).1 in
              elim (Bool-cases (is_failure (fs.write_file handle size s₃).0)) [
                | inl w ↦ rw (e, o, w) (w, omega arith)
                | inr w ↦ rw (e, o, w) (refl, omega arith)
              ]
        ]
      ]
