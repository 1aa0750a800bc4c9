-- ===== src/Reloc/Tables.antt =====
-- What the relocation loops of src/lib/reloc/elf.cpp do to each word of the memory.
use zeldar.Base.{
  ℕ, zero, suc, ◌+◌, ◌≡◌, ◌⊎◌, inl, inr, refl, sym, ap, ◌∙◌, arith, Bool, true, false, Bool-cases,
  List, ◌==◌, ==_iff, if◌then◌else◌, add64,
}
use zeldar.Reloc.{
  Dyn, Table, no_tables, read_dynamic, count_of, store_word, r_offset, r_info, r_addend, elf_r_type,
  arch_relative, entry_at, relocate_rel_entry, relocate_rela_entry, relocate_rel, relocate_rela,
  exl_dynamic,
}

-- The words of one entry: two, and three with an addend.
unfoldable pub IsEntryWord : Bool → ℕ → ℕ → Type 0
IsEntryWord has_addend entry a =
    (a ≡ entry) ⊎ (a ≡ add64 entry 8) ⊎ ((has_addend ≡ true) × (a ≡ add64 entry 16))

-- The words of `n` entries from the index `i`.
unfoldable pub IsTableWord : Bool → Table → (n i : ℕ) → ℕ → Type 0
unfolding IsEntryWord
IsTableWord has_addend t zero i a = ¬ Unit {0}
IsTableWord has_addend t (suc n) i a =
    IsEntryWord has_addend (entry_at t i) a ⊎ IsTableWord has_addend t n (i + 1) a

module _ (aslr_base : ℕ) (has_addend : Bool) where
  -- A word after one entry that is read from the memory `table`: the base and the addend, or the base
  -- added, where the entry is for this word.
  unfoldable pub entry_value : (ℕ → ℕ) → (entry a d : ℕ) → ℕ
  entry_value table entry a d =
      if elf_r_type (r_info table entry) == arch_relative
      then (if a == add64 aslr_base (r_offset table entry)
          then (if has_addend then add64 aslr_base (r_addend table entry) else add64 d aslr_base)
          else d)
      else d

  -- The same after all entries of a table.
  unfoldable pub table_value : (ℕ → ℕ) → Table → (n i : ℕ) → (a d : ℕ) → ℕ
  unfolding entry_value
  table_value table t zero i a d = d
  table_value table t (suc n) i a d =
      table_value table t n (i + 1) a (entry_value table (entry_at t i) a d)

  -- No entry relocates a word of an entry behind it.
  unfoldable pub IsApart : (ℕ → ℕ) → Table → (n i : ℕ) → Type 0
  unfolding IsTableWord
  IsApart table t zero i = Unit
  IsApart table t (suc n) i =
      (((elf_r_type (r_info table (entry_at t i)) == arch_relative) ≡ false)
        ⊎ (¬ IsTableWord has_addend t n (i + 1) (add64 aslr_base (r_offset table (entry_at t i)))))
      × IsApart table t n (i + 1)

  -- The words of the entries are the same in two memories.
  abbrev IsSame : (ℕ → ℕ) → (ℕ → ℕ) → Table → (n i : ℕ) → Type 0
  IsSame table memory t n i = (a : ℕ) → IsTableWord has_addend t n i a → memory a ≡ table a

  entry_value-same :
      (table memory : ℕ → ℕ) (entry a d : ℕ)
      → ((b : ℕ) → IsEntryWord has_addend entry b → memory b ≡ table b)
      → entry_value memory entry a d ≡ entry_value table entry a d
  unfolding entry_value IsEntryWord
  entry_value-same table memory entry a d same =
      let offset = same entry (inl refl) in
      let info = same (add64 entry 8) (inr (inl refl)) in
      elim (Bool-cases has_addend) [
        | inl e ↦
            let addend = same (add64 entry 16) (inr (inr (e, refl))) in
            rw (offset, info, e, addend) refl
        | inr e ↦ rw (offset, info, e) refl
      ]

  -- An entry leaves the words of the entries behind it.
  entry_value-rest :
      (table : ℕ → ℕ) (t : Table) (n i a d : ℕ)
      → IsApart table t (suc n) i
      → IsTableWord has_addend t n (i + 1) a
      → entry_value table (entry_at t i) a d ≡ d
  unfolding entry_value IsApart
  entry_value-rest table t n i a d (inl e, apart) word = rw e refl
  entry_value-rest table t n i a d (inr ne, apart) word =
      let target = add64 aslr_base (r_offset table (entry_at t i)) in
      elim (Bool-cases (a == target)) [
        | inl e ↦ absurd (ne (rw (sym ((==_iff a target).0 e)) word))
        | inr e ↦ ground arith
      ]

-- Both kinds of entry as one function of the memory.
unfoldable relocate_entry : ℕ → Bool → ℕ → (ℕ → ℕ) → ℕ → ℕ
unfolding relocate_rel_entry relocate_rela_entry
relocate_entry aslr_base true entry memory = relocate_rela_entry aslr_base entry memory
relocate_entry aslr_base false entry memory = relocate_rel_entry aslr_base entry memory

relocate_entry-entry_value :
    (aslr_base : ℕ) (has_addend : Bool) (entry : ℕ) (memory : ℕ → ℕ) (a : ℕ)
    → relocate_entry aslr_base has_addend entry memory a
      ≡ entry_value aslr_base has_addend memory entry a (memory a)
unfolding relocate_entry relocate_rel_entry relocate_rela_entry entry_value store_word
relocate_entry-entry_value aslr_base true entry memory a = ground arith
relocate_entry-entry_value aslr_base false entry memory a = ground arith

-- The loop over one table, which reads its entries from the memory that it changes.
unfoldable relocate : ℕ → Bool → Table → (n i : ℕ) → (ℕ → ℕ) → ℕ → ℕ
unfolding relocate_entry
relocate aslr_base has_addend t zero i memory = memory
relocate aslr_base has_addend t (suc n) i memory =
    relocate aslr_base has_addend t n (i + 1)
      (relocate_entry aslr_base has_addend (entry_at t i) memory)

relocate-rela :
    (aslr_base : ℕ) (t : Table) (n i : ℕ) (memory : ℕ → ℕ)
    → relocate aslr_base true t n i memory ≡ relocate_rela aslr_base t n i memory
unfolding relocate relocate_rela relocate_entry
relocate-rela aslr_base t zero i memory = refl
relocate-rela aslr_base t (suc n) i memory =
    relocate-rela aslr_base t n (i + 1) (relocate_rela_entry aslr_base (entry_at t i) memory)

relocate-rel :
    (aslr_base : ℕ) (t : Table) (n i : ℕ) (memory : ℕ → ℕ)
    → relocate aslr_base false t n i memory ≡ relocate_rel aslr_base t n i memory
unfolding relocate relocate_rel relocate_entry
relocate-rel aslr_base t zero i memory = refl
relocate-rel aslr_base t (suc n) i memory =
    relocate-rel aslr_base t n (i + 1) (relocate_rel_entry aslr_base (entry_at t i) memory)

module _ (aslr_base : ℕ) (has_addend : Bool) (table : ℕ → ℕ) (t : Table) where
  -- One round, in a memory that has the entries of the table that are left.
  relocate_entry-same :
      (n i a : ℕ) (memory : ℕ → ℕ)
      → IsSame aslr_base has_addend table memory t (suc n) i
      → relocate_entry aslr_base has_addend (entry_at t i) memory a
        ≡ entry_value aslr_base has_addend table (entry_at t i) a (memory a)
  unfolding IsTableWord
  relocate_entry-same n i a memory same =
      relocate_entry-entry_value aslr_base has_addend (entry_at t i) memory a
      ∙ entry_value-same aslr_base has_addend table memory (entry_at t i) a (memory a)
          (λ b word. same b (inl word))

  relocate_entry-rest :
      (n i : ℕ) (memory : ℕ → ℕ)
      → IsSame aslr_base has_addend table memory t (suc n) i
      → IsApart aslr_base has_addend table t (suc n) i
      → IsSame aslr_base has_addend table
          (relocate_entry aslr_base has_addend (entry_at t i) memory)
          t
          n
          (i + 1)
  unfolding IsTableWord
  relocate_entry-rest n i memory same apart = λ a word.
      relocate_entry-same n i a memory same
      ∙ entry_value-rest aslr_base has_addend table t n i a (memory a) apart word
      ∙ same a (inr word)

  relocate-table_value :
      (n i a : ℕ) (memory : ℕ → ℕ)
      → IsSame aslr_base has_addend table memory t n i
      → IsApart aslr_base has_addend table t n i
      → relocate aslr_base has_addend t n i memory a
        ≡ table_value aslr_base has_addend table t n i a (memory a)
  unfolding relocate table_value IsApart
  relocate-table_value zero i a memory same apart = refl
  relocate-table_value (suc n) i a memory same (ahead, apart) =
      let memory' = relocate_entry aslr_base has_addend (entry_at t i) memory in
      relocate-table_value n (i + 1) a memory' (relocate_entry-rest n i memory same (ahead, apart))
        apart
      ∙ ap (table_value aslr_base has_addend table t n (i + 1) a)
          (relocate_entry-same n i a memory same)

-- When no entry relocates a word of an entry behind it in its own table, nor one of the `REL` table a
-- word of the `RELA` table, `exl_dynamic` gives each word the value that the entries of the two tables,
-- as they are before it, give it one after the other.
pub exl_dynamic-table_value :
    (aslr_base : ℕ) (dynamic : List Dyn) (memory : ℕ → ℕ) (a : ℕ)
    → let t = read_dynamic aslr_base dynamic no_tables in
      let n = count_of t.rel in
      let m = count_of t.rela in
      IsApart aslr_base false memory t.rel n 0
      → IsApart aslr_base true memory t.rela m 0
      → ((b : ℕ)
          → IsTableWord true t.rela m 0 b
          → table_value aslr_base false memory t.rel n 0 b (memory b) ≡ memory b)
      → exl_dynamic aslr_base dynamic memory a
        ≡ table_value aslr_base true memory t.rela m 0 a
            (table_value aslr_base false memory t.rel n 0 a (memory a))
unfolding exl_dynamic
exl_dynamic-table_value aslr_base dynamic memory a apart apart' kept =
    let t = read_dynamic aslr_base dynamic no_tables in
    let after : ℕ → ℕ = relocate_rel aslr_base t.rel (count_of t.rel) 0 memory in
    let rel_lem : (b : ℕ)
        → after b ≡ table_value aslr_base false memory t.rel (count_of t.rel) 0 b (memory b) =
      λ b.
        ap (λ f. f b) (sym (relocate-rel aslr_base t.rel (count_of t.rel) 0 memory))
        ∙ relocate-table_value aslr_base false memory t.rel (count_of t.rel) 0 b memory
            (λ c word. refl) apart in
    ap (λ f. f a) (sym (relocate-rela aslr_base t.rela (count_of t.rela) 0 after))
    ∙ relocate-table_value aslr_base true memory t.rela (count_of t.rela) 0 a after
        (λ b word. rel_lem b ∙ kept b word) apart'
    ∙ ap (table_value aslr_base true memory t.rela (count_of t.rela) 0 a) (rel_lem a)
