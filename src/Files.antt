-- ===== src/Files.antt =====
-- The file helper, src/helpers/fsHelper.cpp, over the console's file library `nn::fs`, which is a
-- parameter: its state is `S`, and a result of 0 is success.
pub mod Handles
mod Tests
use zeldar.Base.{
  ℕ, ◌+◌, ◌-◌, Bool, true, false, Option, none, some, ◌==◌, not, if◌then◌else◌, Outcome, ok,
  aborted, assertion, ◌>>=◌, ◌>>◌, exl_assert,
}

-- What `nn::fs` offers, for one path; `get_entry_type` is what the variable holds after the call.
pub record FileSystem (S : Type 0) : Type 0 where
  pub get_entry_type : S → ℕ
  pub delete_file : S → S
  pub create_file : ℕ → S → ℕ × S
  -- The result, the handle and the state.
  pub open_file : ℕ → S → ℕ × ℕ × S
  pub write_file : ℕ → ℕ → S → ℕ × S
  pub read_file : ℕ → ℕ → S → ℕ × S
  -- The size; `none` where it fails and leaves the variable as it was.
  pub get_file_size : ℕ → S → Option ℕ
  pub close_file : ℕ → S → S

-- `DirectoryEntryType_File`, `OpenMode_Read` and `OpenMode_Write`.
abbrev pub entry_file : ℕ
entry_file = 1

abbrev pub mode_read : ℕ
mode_read = 1

abbrev pub mode_write : ℕ
mode_write = 2

-- `nn::Result::isFailure`.
abbrev pub is_failure : ℕ → Bool
is_failure result = not (result == 0)

module _ {S : Type 0} (fs : FileSystem S) where
  unfoldable pub is_file_exist : S → Bool
  is_file_exist s = fs.get_entry_type s == entry_file

  -- The result and the state after each way out.
  unfoldable pub write_file_to_path : ℕ → S → ℕ × S
  unfolding is_file_exist
  write_file_to_path size s =
      let s₁ = if is_file_exist s then fs.delete_file s else s in
      let (created, s₂) = fs.create_file size s₁ in
      if is_failure created
      then (created, s₂)
      else let (opened, handle, s₃) = fs.open_file mode_write s₂ in
        if is_failure opened
        then (opened, s₃)
        else let (written, s₄) = fs.write_file handle size s₃ in
          if is_failure written then (written, s₄) else (1, fs.close_file handle s₄)

  -- The variable that a size is asked for, which keeps its value where that fails.
  abbrev pub size_or : ℕ → Option ℕ → ℕ
  size_or before none = before
  size_or before (some size) = size

  -- The rest of `loadFileFromPath` once the file is open.
  unfoldable pub read_opened : ℕ → ℕ → S → Outcome (ℕ × S)
  read_opened buffer handle s = do
    let size = size_or 0 (fs.get_file_size handle s)
    exl_assert (not (buffer == 0))
    let (read, s') = fs.read_file handle size s
    (if is_failure read then aborted read else ok (size, fs.close_file handle s'))

  -- The buffer that the heap gave is a parameter; 0 is none. The result is its size.
  unfoldable pub load_file_from_path : ℕ → S → Outcome (ℕ × S)
  unfolding is_file_exist read_opened
  load_file_from_path buffer s = do
    exl_assert (is_file_exist s)
    let (opened, handle, s') = fs.open_file mode_read s
    (if is_failure opened then aborted opened else read_opened buffer handle s')

  -- `getFileSize`, where -1 is `none`.
  unfoldable pub get_file_size : S → Option ℕ × S
  get_file_size s =
      let (opened, handle, s₁) = fs.open_file mode_read s in
      if is_failure opened
      then (none, s₁)
      else (fs.get_file_size handle s₁, fs.close_file handle s₁)
