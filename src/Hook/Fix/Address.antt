-- ===== src/Hook/Fix/Address.antt =====
-- `__fix_pcreladdr` of src/lib/hook/nx64/hook_impl.cpp: `ADR` and `ADRP`.
use zeldar.Base.{
  ℕ, ◌-◌, ◌*◌, ◌/◌, ◌^◌, Bool, not, ◌&&◌, Option, none, some, [], ◌∷◌, bit_and, bit_or, leb, ◌==◌,
  if◌then◌else◌, u32, not32, add64, sub64, asr32, llabs,
}
use zeldar.Hook.Context.{
  State, outprx, outprw, emit, is_in_fixing_range, get_ref_ins_index, reset_current_ins,
  current_index, set_current, finish, words_of,
}
use zeldar.Hook.Fix.{refer, pad, misaligned}

-- The 21 bits of the offset: the high part as an unsigned word, `|` the two low bits.
abbrev pub pcrel_offset : ℕ → ℕ
pcrel_offset ins =
    bit_or (bit_and (asr32 (u32 (ins * 2 ^ 8)) 11) (not32 3)) (u32 (ins * 2) / 2 ^ 30)

module _ (load : ℕ → ℕ) where
  abbrev pub adr_absolute_addr : State → ℕ
  adr_absolute_addr s = add64 s.inp (pcrel_offset (load s.inp))

  -- The shift by 12 is one of 32 bits.
  abbrev pub adrp_absolute_addr : State → ℕ
  adrp_absolute_addr s =
      add64 (bit_and s.inp (2 ^ 64 - 1 - 0xfff)) (u32 (pcrel_offset (load s.inp) * 2 ^ 12))

  -- The address as a literal: `LDR #0x8`, `B #0xc`, and the address.
  unfoldable pub literal_address : ℕ → ℕ → State → State
  unfolding pad emit
  literal_address idx absolute_addr s =
      let s' = if misaligned 2 s then pad idx s else s in
      let ldr =
        bit_or (bit_or 0x58000000 (bit_and (2 * 2 ^ 5) (not32 0x9f000000)))
          (bit_and (load s.inp) 0x0000001f) in
      emit (ldr ∷ 0x14000003 ∷ words_of absolute_addr) s'

  unfoldable pub near_adr : ℕ → ℕ → Bool → State → State
  unfolding refer emit get_ref_ins_index
  near_adr idx absolute_addr special s =
      let ref_idx = get_ref_ins_index s.ctx (bit_and absolute_addr (2 ^ 64 - 1 - 3)) in
      let (s', off) =
        if special then refer idx ref_idx 5 0x00ffffff s else (s, sub64 absolute_addr (outprx s)) in
      emit (bit_or (bit_and (u32 (off * 2 ^ 3)) 0x00ffffff) (bit_and (load s.inp) 0xff00001f) ∷ [])
        s'

  unfoldable pub fix_adr : State → State
  unfolding current_index set_current is_in_fixing_range literal_address near_adr finish
  fix_adr s =
      let idx = current_index s in
      let absolute_addr = adr_absolute_addr s in
      let s1 = set_current idx s in
      let new_pc_offset = sub64 absolute_addr (outprx s1) in
      let special = is_in_fixing_range s1.ctx absolute_addr in
      let far = not special && leb (0x001fffff / 2) (llabs new_pc_offset) in
      finish idx (
        if far then literal_address idx absolute_addr s1 else near_adr idx absolute_addr special s1)

  -- The place that is recorded is `*outprw` here.
  unfoldable pub fix_adrp : State → State
  unfolding current_index reset_current_ins is_in_fixing_range literal_address emit finish
  fix_adrp s =
      let idx = current_index s in
      let absolute_addr = adrp_absolute_addr s in
      let s1 = record s { ctx = reset_current_ins idx (outprw s) s.ctx } in
      finish idx (
        if is_in_fixing_range s1.ctx absolute_addr
        then emit (load s.inp ∷ []) s1
        else literal_address idx absolute_addr s1)

  unfoldable pub fix_pcreladdr : State → Option State
  unfolding fix_adr fix_adrp
  fix_pcreladdr s =
      let kind = bit_and (load s.inp) 0x9f000000 in
      if kind == 0x10000000
      then some (fix_adr s)
      else if kind == 0x90000000
      then some (fix_adrp s)
      else none
