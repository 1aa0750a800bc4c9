-- ===== src/Reloc/Dynamic.antt =====
-- What `exl_dynamic` of src/lib/reloc/elf.cpp reads from the dynamic section.
use zeldar.Base.{
  ℕ, ◌≡◌, refl, ◌∙◌, arith, Bool-cases, inl, inr, List, [], ◌∷◌, ◌==◌, if◌then◌else◌, add64,
}
use zeldar.Reloc.{
  Dyn, dt_null, dt_rela, dt_relasz, dt_relaent, dt_rel, dt_relsz, dt_relent, dt_relacount,
  dt_relcount, TablePair, read_dyn, read_dynamic,
}

-- The value of the last entry with the tag before `DT_NULL`, or `default`.
unfoldable pub last_val : ℕ → List Dyn → ℕ → ℕ
last_val tag [] default = default
last_val tag (d ∷ ds) default =
    let rest = last_val tag ds (if d.tag == tag then d.val else default) in
    if d.tag == dt_null then default else rest

-- The same for an address, which is relative to the base.
unfoldable pub last_ptr : ℕ → ℕ → List Dyn → ℕ → ℕ
last_ptr aslr_base tag [] default = default
last_ptr aslr_base tag (d ∷ ds) default =
    let rest =
      last_ptr aslr_base tag ds (if d.tag == tag then add64 aslr_base d.val else default) in
    if d.tag == dt_null then default else rest

unfoldable pub last_tables : ℕ → List Dyn → TablePair → TablePair
unfolding last_val last_ptr
last_tables aslr_base ds t = record {
  rela = record {
    at = last_ptr aslr_base dt_rela ds t.rela.at;
    entry_size = last_val dt_relaent ds t.rela.entry_size;
    entry_count = last_val dt_relacount ds t.rela.entry_count;
    size = last_val dt_relasz ds t.rela.size;
  };
  rel = record {
    at = last_ptr aslr_base dt_rel ds t.rel.at;
    entry_size = last_val dt_relent ds t.rel.entry_size;
    entry_count = last_val dt_relcount ds t.rel.entry_count;
    size = last_val dt_relsz ds t.rel.size;
  };
}

-- One round, field by field: each field reads its own tag.
unfoldable picked : ℕ → Dyn → TablePair → TablePair
picked aslr_base d t = record {
  rela = record {
    at = if d.tag == dt_rela then add64 aslr_base d.val else t.rela.at;
    entry_size = if d.tag == dt_relaent then d.val else t.rela.entry_size;
    entry_count = if d.tag == dt_relacount then d.val else t.rela.entry_count;
    size = if d.tag == dt_relasz then d.val else t.rela.size;
  };
  rel = record {
    at = if d.tag == dt_rel then add64 aslr_base d.val else t.rel.at;
    entry_size = if d.tag == dt_relent then d.val else t.rel.entry_size;
    entry_count = if d.tag == dt_relcount then d.val else t.rel.entry_count;
    size = if d.tag == dt_relsz then d.val else t.rel.size;
  };
}

read_dyn-picked :
    (aslr_base : ℕ) (d : Dyn) (t : TablePair) → read_dyn aslr_base d t ≡ picked aslr_base d t
unfolding read_dyn picked
read_dyn-picked aslr_base d t = ground arith

-- Whatever the order of the section, each variable has the value of the last entry with its tag before
-- `DT_NULL`, the addresses moved by the base.
pub read_dynamic-last_tables :
    (aslr_base : ℕ) (ds : List Dyn) (t : TablePair)
    → read_dynamic aslr_base ds t ≡ last_tables aslr_base ds t
unfolding read_dynamic last_tables last_val last_ptr picked
read_dynamic-last_tables aslr_base [] t = refl
read_dynamic-last_tables aslr_base (d ∷ ds) t = elim (Bool-cases (d.tag == dt_null)) [
  | inl e ↦ rw e refl
  | inr e ↦ rw e (
      read_dynamic-last_tables aslr_base ds (read_dyn aslr_base d t)
      ∙ rw (read_dyn-picked aslr_base d t) refl)
]
