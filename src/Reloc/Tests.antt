-- ===== src/Reloc/Tests.antt =====
-- `exl_dynamic` of src/lib/reloc/elf.cpp on a module at 0x1000 with two entries in a `RELA` table at
-- 0x1100.
use zeldar.Base.{
  ℕ, ◌≡◌, ◌⊎◌, inl, inr, refl, arith, true, false, List, [], ◌∷◌, ◌==◌, if◌then◌else◌,
}
use zeldar.Reloc.{
  Dyn, TablePair, no_tables, read_dyn, read_dynamic, count_of, exl_dynamic, dt_rela, dt_relasz,
  dt_relaent, dt_null, arch_relative,
}
use zeldar.Reloc.Dynamic.{last_tables, read_dynamic-last_tables}
use zeldar.Reloc.Tables.{IsEntryWord, IsTableWord, IsApart, table_value, exl_dynamic-table_value}

abbrev dyn : ℕ → ℕ → Dyn
dyn tag val = record { tag = tag; val = val }

abbrev section_entries : List Dyn
section_entries = dyn dt_rela 0x100 ∷ dyn dt_relasz 48 ∷ dyn dt_relaent 24 ∷ dyn dt_null 0 ∷ []

abbrev two_entries : ℕ → ℕ
two_entries a =
    if a == 0x1100
    then 0x200
    else if a == 0x1108
    then arch_relative
    else if a == 0x1110
    then 0x40
    else if a == 0x1118
    then 0x208
    else if a == 0x1120
    then arch_relative
    else if a == 0x1128
    then 0x48
    else 0

abbrev tables : TablePair
tables = read_dynamic 0x1000 section_entries no_tables

-- The first entry is for a word that the second one has not.
second_apart : ¬ (IsEntryWord true 0x1118 0x1200 ⊎ ¬ Unit {0})
unfolding IsEntryWord
second_apart (inl (inl e)) = omega arith
second_apart (inl (inr (inl e))) = omega arith
second_apart (inl (inr (inr (t, e)))) = omega arith
second_apart (inr h) = h tt

rel-IsApart : IsApart 0x1000 false two_entries tables.rel (count_of tables.rel) 0
unfolding read_dynamic read_dyn count_of IsApart
rel-IsApart = tt

rela-IsApart : IsApart 0x1000 true two_entries tables.rela (count_of tables.rela) 0
unfolding read_dynamic read_dyn count_of IsApart IsTableWord IsEntryWord
rela-IsApart = (inr second_apart, (inr (λ word. word tt), tt))

rel_kept :
    (b : ℕ)
    → IsTableWord true tables.rela (count_of tables.rela) 0 b
    → table_value 0x1000 false two_entries tables.rel (count_of tables.rel) 0 b (two_entries b)
      ≡ two_entries b
unfolding read_dynamic read_dyn count_of table_value
rel_kept b word = refl

read_dynamic-last_tables_example :
    read_dynamic 0x1000 section_entries no_tables ≡ last_tables 0x1000 section_entries no_tables
read_dynamic-last_tables_example = read_dynamic-last_tables 0x1000 section_entries no_tables

exl_dynamic-table_value_example :
    exl_dynamic 0x1000 section_entries two_entries 0x1208
    ≡ table_value 0x1000 true two_entries tables.rela (count_of tables.rela) 0 0x1208 (
        table_value 0x1000 false two_entries tables.rel
          (count_of tables.rel)
          0
          0x1208
          (two_entries 0x1208))
exl_dynamic-table_value_example =
    exl_dynamic-table_value 0x1000 section_entries two_entries 0x1208 rel-IsApart rela-IsApart
      rel_kept
