-- ===== src/Files/Tests.antt =====
-- src/helpers/fsHelper.cpp over a file library whose state is the number of open handles, with a full
-- disk.
use zeldar.Base.{ℕ, ◌+◌, ◌-◌, ◌≡◌, ◌↔◌, ◌==◌, refl, true, false, none, some, if◌then◌else◌}
use zeldar.Files.{FileSystem, is_failure, mode_read, write_file_to_path, get_file_size}
use zeldar.Files.Handles.{
  HandleLaws, write_fails, get_file_size-open_count, write_file_to_path-open_count,
}

abbrev full_disk : FileSystem ℕ
full_disk = record {
  get_entry_type = λ s. 1;
  delete_file = λ s. s;
  create_file = λ size s. (0, s);
  open_file = λ mode s. (0, 7, s + 1);
  write_file = λ handle size s. (0x4c02, s);
  read_file = λ handle size s. (0, s);
  get_file_size = λ handle s. if s == 4 then some 12 else none;
  close_file = λ handle s. s - 1;
}

abbrev open_handles : ℕ → ℕ
open_handles s = s

full_disk-HandleLaws : HandleLaws full_disk open_handles
full_disk-HandleLaws = record {
  of_delete = λ s. refl;
  of_create = λ size s. refl;
  of_write = λ handle size s. refl;
  of_read = λ handle size s. refl;
  of_close = λ handle s. refl;
  of_open = λ mode s. refl;
}

get_file_size-open_count_example :
    (open_handles (get_file_size full_disk 3).1 ≡ open_handles 3)
    × ((n : ℕ)
        → ((get_file_size full_disk 3).0 ≡ some n) ↔ (
            (is_failure (full_disk.open_file mode_read 3).0 ≡ false)
            × (full_disk.get_file_size 7 4 ≡ some n)))
get_file_size-open_count_example =
    get_file_size-open_count full_disk open_handles full_disk-HandleLaws 3

write_file_to_path-open_count_example :
    (is_failure (write_file_to_path full_disk 12 3).0 ≡ true)
    × (open_handles (write_file_to_path full_disk 12 3).1
        ≡ (if write_fails full_disk 12 3 then open_handles 3 + 1 else open_handles 3))
write_file_to_path-open_count_example =
    write_file_to_path-open_count full_disk open_handles full_disk-HandleLaws 12 3
