-- ===== src/Reloc.antt =====
-- The relocation of the module itself, `exl_dynamic` of src/lib/reloc/elf.cpp. The memory is the
-- function from the address of a 64-bit word to the word; the dynamic section, the tables and the
-- words that are relocated are aligned, so that two of them are the same word or do not overlap. The
-- numbers of the tags and of the relocation's type are those of <elf.h> for AArch64.
pub mod Dynamic
pub mod Tables
mod Tests
use zeldar.Base.{
  ℕ, zero, suc, ◌+◌, ◌*◌, ◌/◌, ◌%◌, ◌^◌, List, [], ◌∷◌, ◌==◌, if◌then◌else◌, add64, u64,
}

-- `Elf_Dyn`; `d_ptr` and `d_val` are one field.
pub record Dyn : Type 0 where
  pub tag : ℕ
  pub val : ℕ

abbrev pub dt_null : ℕ
dt_null = 0

abbrev pub dt_rela : ℕ
dt_rela = 7

abbrev pub dt_relasz : ℕ
dt_relasz = 8

abbrev pub dt_relaent : ℕ
dt_relaent = 9

abbrev pub dt_rel : ℕ
dt_rel = 17

abbrev pub dt_relsz : ℕ
dt_relsz = 18

abbrev pub dt_relent : ℕ
dt_relent = 19

abbrev pub dt_relacount : ℕ
dt_relacount = 0x6ffffff9

abbrev pub dt_relcount : ℕ
dt_relcount = 0x6ffffffa

-- `R_AARCH64_RELATIVE`.
abbrev pub arch_relative : ℕ
arch_relative = 1027

-- The variables of `exl_dynamic` for one of the two kinds of table.
pub record Table : Type 0 where
  pub at : ℕ
  pub entry_size : ℕ
  pub entry_count : ℕ
  pub size : ℕ

pub record TablePair : Type 0 where
  pub rela : Table
  pub rel : Table

abbrev pub no_tables : TablePair
no_tables = record {
  rela = record { at = 0; entry_size = 24; entry_count = 0; size = 0 };
  rel = record { at = 0; entry_size = 16; entry_count = 0; size = 0 };
}

module _ (aslr_base : ℕ) where
  -- One round over the dynamic section.
  unfoldable pub read_dyn : Dyn → TablePair → TablePair
  read_dyn d t =
      if d.tag == dt_rela
      then record t { rela = record (t.rela) { at = add64 aslr_base d.val } }
      else if d.tag == dt_relaent
      then record t { rela = record (t.rela) { entry_size = d.val } }
      else if d.tag == dt_relasz
      then record t { rela = record (t.rela) { size = d.val } }
      else if d.tag == dt_rel
      then record t { rel = record (t.rel) { at = add64 aslr_base d.val } }
      else if d.tag == dt_relent
      then record t { rel = record (t.rel) { entry_size = d.val } }
      else if d.tag == dt_relsz
      then record t { rel = record (t.rel) { size = d.val } }
      else if d.tag == dt_relacount
      then record t { rela = record (t.rela) { entry_count = d.val } }
      else if d.tag == dt_relcount
      then record t { rel = record (t.rel) { entry_count = d.val } }
      else t

  -- The loop over the section, which ends at `DT_NULL`.
  unfoldable pub read_dynamic : List Dyn → TablePair → TablePair
  unfolding read_dyn
  read_dynamic [] t = t
  read_dynamic (d ∷ ds) t =
      let rest = read_dynamic ds (read_dyn d t) in if d.tag == dt_null then t else rest

-- A count of zero is computed from the size.
unfoldable pub count_of : Table → ℕ
count_of t = if t.entry_count == 0 then t.size / t.entry_size else t.entry_count

unfoldable pub store_word : ℕ → ℕ → (ℕ → ℕ) → ℕ → ℕ
store_word a v memory b = if b == a then v else memory b

-- The two words of `Elf_Rel` and the three of `Elf_Rela`, at an address.
abbrev pub r_offset : (ℕ → ℕ) → ℕ → ℕ
r_offset memory entry = memory entry

abbrev pub r_info : (ℕ → ℕ) → ℕ → ℕ
r_info memory entry = memory (add64 entry 8)

abbrev pub r_addend : (ℕ → ℕ) → ℕ → ℕ
r_addend memory entry = memory (add64 entry 16)

abbrev pub elf_r_type : ℕ → ℕ
elf_r_type info = info % 2 ^ 32

abbrev pub entry_at : Table → ℕ → ℕ
entry_at t i = add64 t.at (u64 (i * t.entry_size))

module _ (aslr_base : ℕ) where
  unfoldable pub relocate_rel_entry : ℕ → (ℕ → ℕ) → ℕ → ℕ
  unfolding store_word
  relocate_rel_entry entry memory =
      let ptr = add64 aslr_base (r_offset memory entry) in
      if elf_r_type (r_info memory entry) == arch_relative
      then store_word ptr (add64 (memory ptr) aslr_base) memory
      else memory

  unfoldable pub relocate_rela_entry : ℕ → (ℕ → ℕ) → ℕ → ℕ
  unfolding store_word
  relocate_rela_entry entry memory =
      let ptr = add64 aslr_base (r_offset memory entry) in
      if elf_r_type (r_info memory entry) == arch_relative
      then store_word ptr (add64 aslr_base (r_addend memory entry)) memory
      else memory

  -- The loops over the entries, with `n` entries left from the index `i`.
  unfoldable pub relocate_rel : Table → (n i : ℕ) → (ℕ → ℕ) → ℕ → ℕ
  unfolding relocate_rel_entry
  relocate_rel t zero i memory = memory
  relocate_rel t (suc n) i memory =
      relocate_rel t n (i + 1) (relocate_rel_entry (entry_at t i) memory)

  unfoldable pub relocate_rela : Table → (n i : ℕ) → (ℕ → ℕ) → ℕ → ℕ
  unfolding relocate_rela_entry
  relocate_rela t zero i memory = memory
  relocate_rela t (suc n) i memory =
      relocate_rela t n (i + 1) (relocate_rela_entry (entry_at t i) memory)

  -- The memory after `exl_dynamic`.
  unfoldable pub exl_dynamic : List Dyn → (ℕ → ℕ) → ℕ → ℕ
  unfolding read_dynamic count_of relocate_rel relocate_rela
  exl_dynamic dynamic memory =
      let t = read_dynamic aslr_base dynamic no_tables in
      let after_rel = relocate_rel t.rel (count_of t.rel) 0 memory in
      relocate_rela t.rela (count_of t.rela) 0 after_rel
