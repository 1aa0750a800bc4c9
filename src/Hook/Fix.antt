-- ===== src/Hook/Fix.antt =====
-- The `__fix_` functions of src/lib/hook/nx64/hook_impl.cpp. Each returns `none` where the source
-- returns `false`, that is, where the instruction is not of its kind. `load a` is the word at the
-- address `a` of the code that is hooked, which the functions read and do not write.
pub mod Literal
pub mod Address
pub mod Loop
use zeldar.Base.{
  ℕ, ◌+◌, ◌-◌, ◌*◌, ◌/◌, ◌%◌, ◌^◌, Bool, true, false, not, ◌&&◌, ◌||◌, Option, none, some, List, [],
  ◌∷◌, ◌++◌, bit_and, bit_or, length, ltb, leb, ◌==◌, if◌then◌else◌, u32, not32, add64, sub64,
  asr32, asr64, sext32, llabs,
}
use zeldar.Hook.Context.{
  aarch64_nop, Context, State, outprx, emit, is_in_fixing_range, get_ref_ins_index, dat_at,
  current_index, set_current, insert_fix_map, finish, words_of,
}

-- A reference from the current instruction to an address that is rewritten too: to a place that is
-- known already, or one that is fixed up when the instruction there is reached. The state after it
-- and the offset in bytes.
unfoldable pub refer : ℕ → ℕ → ℕ → ℕ → State → State × ℕ
unfolding get_ref_ins_index dat_at insert_fix_map
refer idx ref_idx ls ad s =
    if leb ref_idx idx
    then (s, sub64 (dat_at s.ctx ref_idx).ins (outprx s))
    else (record s { ctx = insert_fix_map ref_idx (length s.out) (outprx s) ls ad s.ctx }, 0)

-- A `NOP` that moves the place of the current instruction behind it.
unfoldable pub pad : ℕ → State → State
unfolding emit set_current
pad idx s = set_current idx (emit (aarch64_nop ∷ []) s)

-- `(*outprx + n) & 7u` is not zero.
abbrev pub misaligned : ℕ → State → Bool
misaligned words s = not (add64 (outprx s) (4 * words) % 8 == 0)

unfoldable pub far_b : ℕ → ℕ → State → State
unfolding pad emit
far_b idx absolute_addr s =
    let s' = if misaligned 2 s then pad idx s else s in
    emit (0x58000051 ∷ 0xd61f0220 ∷ words_of absolute_addr) s'

unfoldable pub far_bl : ℕ → ℕ → State → State
unfolding pad emit
far_bl idx absolute_addr s =
    let s' = if misaligned 2 s then s else pad idx s in
    emit (0x58000071 ∷ 0x1000009e ∷ 0xd61f0220 ∷ words_of absolute_addr) s'

unfoldable pub near_branch : ℕ → ℕ → ℕ → Bool → State → State
unfolding refer emit
near_branch opc idx absolute_addr special s =
    let ref_idx = get_ref_ins_index s.ctx absolute_addr in
    let (s', off) =
      if special then refer idx ref_idx 0 0x03ffffff s else (s, sub64 absolute_addr (outprx s)) in
    emit (bit_or opc (bit_and (asr64 off 2) 0x03ffffff) ∷ []) s'

-- What `__fix_branch_imm` writes.
unfoldable pub fix_branch : ℕ → ℕ → ℕ → State → State
unfolding is_in_fixing_range far_b far_bl near_branch
fix_branch opc idx absolute_addr s =
    let new_pc_offset = asr64 (sub64 absolute_addr (outprx s)) 2 in
    let special = is_in_fixing_range s.ctx absolute_addr in
    let far = not special && leb (0x03ffffff / 2) (llabs new_pc_offset) in
    if far
    then (if opc == 0x14000000 then far_b idx absolute_addr s else far_bl idx absolute_addr s)
    else near_branch opc idx absolute_addr special s

module _ (load : ℕ → ℕ) where
  -- `__fix_branch_imm`.
  abbrev pub branch_absolute_addr : State → ℕ
  branch_absolute_addr s = add64 s.inp (sext32 (asr32 (u32 (load s.inp * 2 ^ 6)) 4))

  unfoldable pub fix_branch_imm : State → Option State
  unfolding current_index set_current fix_branch finish
  fix_branch_imm s =
      let opc = bit_and (load s.inp) 0xfc000000 in
      let idx = current_index s in
      if opc == 0x14000000 || opc == 0x94000000
      then some (finish idx (fix_branch opc idx (branch_absolute_addr s) (set_current idx s)))
      else none

  -- `__fix_cond_comp_test_branch`: the mask of the bits that stay, by the kind of instruction.
  unfoldable pub cond_lmask : ℕ → Option ℕ
  cond_lmask ins =
      let opc = bit_and ins 0x7f000000 in
      if bit_and ins 0xff000010 == 0x54000000
      then some 0xff00001f
      else if opc == 0x34000000 || opc == 0x35000000
      then some 0xff00001f
      else if opc == 0x36000000 || opc == 0x37000000
      then some 0xfff8001f
      else none

  -- The offset is not sign-extended.
  abbrev pub cond_absolute_addr : ℕ → State → ℕ
  cond_absolute_addr lmask s = add64 s.inp (bit_and (load s.inp) (not32 lmask) / 2 ^ 3)

  -- The padding `NOP` follows the place that is recorded.
  unfoldable pub far_cond : ℕ → ℕ → ℕ → State → State
  unfolding emit set_current
  far_cond lmask idx absolute_addr s =
      let s' = if misaligned 4 s then emit (aarch64_nop ∷ []) (set_current idx s) else s in
      let skip = bit_or (bit_and (2 * 2 ^ 5) (not32 lmask)) (bit_and (load s.inp) lmask) in
      emit (skip ∷ 0x14000005 ∷ 0x58000051 ∷ 0xd61f0220 ∷ words_of absolute_addr) s'

  unfoldable pub near_cond : ℕ → ℕ → ℕ → Bool → State → State
  unfolding refer emit
  near_cond lmask idx absolute_addr special s =
      let ref_idx = get_ref_ins_index s.ctx absolute_addr in
      let (s', off) =
        if special
        then refer idx ref_idx 5 (not32 lmask) s
        else (s, sub64 absolute_addr (outprx s)) in
      emit
        (bit_or (bit_and (u32 (asr64 off 2 * 2 ^ 5)) (not32 lmask)) (bit_and (load s.inp) lmask)
          ∷ [])
        s'

  unfoldable pub fix_cond : ℕ → State → State
  unfolding current_index set_current is_in_fixing_range far_cond near_cond finish
  fix_cond lmask s =
      let idx = current_index s in
      let absolute_addr = cond_absolute_addr lmask s in
      let s1 = set_current idx s in
      let new_pc_offset = asr64 (sub64 absolute_addr (outprx s1)) 2 in
      let special = is_in_fixing_range s1.ctx absolute_addr in
      let far = not special && leb (not32 lmask / 2 ^ 6) (llabs new_pc_offset) in
      finish idx (
        if far
        then far_cond lmask idx absolute_addr s1
        else near_cond lmask idx absolute_addr special s1)

  unfoldable pub fix_cond_comp_test_branch : State → Option State
  unfolding cond_lmask fix_cond
  fix_cond_comp_test_branch s = elim (cond_lmask (load s.inp)) [
    | none ↦ none
    | some lmask ↦ some (fix_cond lmask s)
  ]
