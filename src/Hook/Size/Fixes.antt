-- ===== src/Hook/Size/Fixes.antt =====
-- How many words each `__fix_` function of src/lib/hook/nx64/hook_impl.cpp writes.
use zeldar.Base.{
  ℕ, ◌-◌, ◌/◌, ◌≤◌, Bool, true, false, not, List, [], ◌∷◌, arith, Bool-cases, Option-cases, sub64,
  not32, asr64, llabs, bit_and, ◌&&◌, ◌||◌, inl, inr, if◌then◌else◌, ◌==◌, leb, length, ◌^◌,
}
use zeldar.Hook.Context.{
  aarch64_nop, State, outprx, outprw, emit, set_current, current_index, is_in_fixing_range,
  get_ref_ins_index, reset_current_ins,
}
use zeldar.Hook.Fix.{
  refer, pad, misaligned, far_b, far_bl, near_branch, fix_branch, fix_branch_imm, far_cond,
  near_cond, fix_cond, fix_cond_comp_test_branch, cond_lmask, cond_absolute_addr,
  branch_absolute_addr,
}
use zeldar.Hook.Fix.Address.{
  literal_address, near_adr, fix_adr, fix_adrp, fix_pcreladdr, adr_absolute_addr,
  adrp_absolute_addr,
}
use zeldar.Hook.Size.{
  Grows, Grows-if, Grows-refl, emit_after-Grows, set_current-Grows, finish-Grows, refer-Grows,
  pad-Grows, GrowsIfTaken, rewritten-Grows,
}

-- `pad` or nothing, by a test, and a run behind it.
padded_emit-Grows :
    (ws : List ℕ) (idx : ℕ) (s : State) (c : Bool)
    → length ws ≤ 6
    → Grows 9 s (emit ws (if c then pad idx s else s))
padded_emit-Grows ws idx s c h =
    let t = if c then pad idx s else s in
    emit_after-Grows 1 9 ws s t (omega arith)
      (Grows-if 1 s (pad idx s) s c (pad-Grows idx s) (Grows-refl 1 s))

far_b-Grows : (idx a : ℕ) (s : State) → Grows 9 s (far_b idx a s)
unfolding far_b
far_b-Grows idx a s = padded_emit-Grows _ idx s (misaligned 2 s) (omega arith)

far_bl-Grows : (idx a : ℕ) (s : State) → Grows 9 s (far_bl idx a s)
unfolding far_bl
far_bl-Grows idx a s = elim (Bool-cases (misaligned 2 s)) [
  | inl odd ↦ rw odd (padded_emit-Grows _ idx s false (omega arith))
  | inr even ↦ rw even (padded_emit-Grows _ idx s true (omega arith))
]

-- The state after the reference of a near form.
referred : Bool → ℕ → ℕ → ℕ → ℕ → ℕ → State → State
referred special idx ref_idx ls ad off s =
    (if special then refer idx ref_idx ls ad s else (s, off)).0

referred_emit-Grows :
    (ws : List ℕ) (special : Bool) (idx ref_idx ls ad off : ℕ) (s : State)
    → length ws ≤ 6
    → Grows 9 s (emit ws (if special then refer idx ref_idx ls ad s else (s, off)).0)
referred_emit-Grows ws true idx ref_idx ls ad off s h =
    emit_after-Grows 0 9 ws s (refer idx ref_idx ls ad s).0 (omega arith)
      (refer-Grows idx ref_idx ls ad s)
referred_emit-Grows ws false idx ref_idx ls ad off s h =
    emit_after-Grows 0 9 ws s s (omega arith) (Grows-refl 0 s)

near_branch-Grows :
    (opc idx a : ℕ) (special : Bool) (s : State) → Grows 9 s (near_branch opc idx a special s)
unfolding near_branch
near_branch-Grows opc idx a special s =
    referred_emit-Grows _ special idx (get_ref_ins_index s.ctx a) 0 0x03ffffff (sub64 a (outprx s))
      s (omega arith)

fix_branch-Grows : (opc idx a : ℕ) (s : State) → Grows 9 s (fix_branch opc idx a s)
unfolding fix_branch
fix_branch-Grows opc idx a s =
    Grows-if 9 s _ _ _
      (Grows-if 9 s (far_b idx a s) (far_bl idx a s) (opc == 0x14000000) (far_b-Grows idx a s)
        (far_bl-Grows idx a s))
      (near_branch-Grows opc idx a (is_in_fixing_range s.ctx a) s)

module _ (load : ℕ → ℕ) where
  far_cond-Grows : (lmask idx a : ℕ) (s : State) → Grows 9 s (far_cond load lmask idx a s)
  unfolding far_cond
  far_cond-Grows lmask idx a s =
      let u = set_current idx s in
      let t = if misaligned 4 s then emit (aarch64_nop ∷ []) u else s in
      emit_after-Grows 1 9 _ s t (omega arith) (
        Grows-if 1 s (emit (aarch64_nop ∷ []) u) s (misaligned 4 s)
          (emit_after-Grows 0 1 (aarch64_nop ∷ []) s u (omega arith) (set_current-Grows idx s))
          (Grows-refl 1 s))

  near_cond-Grows :
      (lmask idx a : ℕ) (special : Bool) (s : State)
      → Grows 9 s (near_cond load lmask idx a special s)
  unfolding near_cond
  near_cond-Grows lmask idx a special s =
      referred_emit-Grows _ special idx (get_ref_ins_index s.ctx a) 5 (not32 lmask)
        (sub64 a (outprx s)) s (omega arith)

  fix_cond-Grows : (lmask : ℕ) (s : State) → Grows 9 s (fix_cond load lmask s)
  unfolding fix_cond
  fix_cond-Grows lmask s =
      let idx = current_index s in
      let s1 = set_current idx s in
      let a = cond_absolute_addr load lmask s in
      let special = is_in_fixing_range s1.ctx a in
      let far = not special && leb (not32 lmask / 2 ^ 6) (llabs (asr64 (sub64 a (outprx s1)) 2)) in
      let t = far_cond load lmask idx a s1 in
      let u = near_cond load lmask idx a special s1 in
      rewritten-Grows idx s (if far then t else u) (
        Grows-if 9 s1 t u far (far_cond-Grows lmask idx a s1)
          (near_cond-Grows lmask idx a special s1))

  literal_address-Grows : (idx a : ℕ) (s : State) → Grows 9 s (literal_address load idx a s)
  unfolding literal_address
  literal_address-Grows idx a s = padded_emit-Grows _ idx s (misaligned 2 s) (omega arith)

  near_adr-Grows :
      (idx a : ℕ) (special : Bool) (s : State) → Grows 9 s (near_adr load idx a special s)
  unfolding near_adr
  near_adr-Grows idx a special s =
      referred_emit-Grows _ special idx (get_ref_ins_index s.ctx (bit_and a (2 ^ 64 - 1 - 3))) 5
        0x00ffffff (sub64 a (outprx s)) s (omega arith)

  fix_adr-Grows : (s : State) → Grows 9 s (fix_adr load s)
  unfolding fix_adr
  fix_adr-Grows s =
      let idx = current_index s in
      let s1 = set_current idx s in
      let a = adr_absolute_addr load s in
      let special = is_in_fixing_range s1.ctx a in
      let far = not special && leb (0x001fffff / 2) (llabs (sub64 a (outprx s1))) in
      let t = literal_address load idx a s1 in
      let u = near_adr load idx a special s1 in
      rewritten-Grows idx s (if far then t else u)
        (Grows-if 9 s1 t u far (literal_address-Grows idx a s1) (near_adr-Grows idx a special s1))

  fix_adrp-Grows : (s : State) → Grows 9 s (fix_adrp load s)
  unfolding fix_adrp
  fix_adrp-Grows s =
      let idx = current_index s in
      let s1 = record s { ctx = reset_current_ins idx (outprw s) s.ctx } in
      let a = adrp_absolute_addr load s in
      let inside = is_in_fixing_range s1.ctx a in
      let t = emit (load s.inp ∷ []) s1 in
      let u = literal_address load idx a s1 in
      finish-Grows 9 idx s (if inside then t else u) (
        Grows-if 9 s t u inside
          (emit_after-Grows 0 9 (load s.inp ∷ []) s s1 (omega arith) (Grows-refl 0 s))
          (literal_address-Grows idx a s1))

  pub fix_branch_imm-Grows : (s : State) → GrowsIfTaken s (fix_branch_imm load s)
  unfolding fix_branch_imm
  fix_branch_imm-Grows s =
      let idx = current_index s in
      let s1 = set_current idx s in
      let a = branch_absolute_addr load s in
      let opc = bit_and (load s.inp) 0xfc000000 in
      elim (Bool-cases (opc == 0x14000000 || opc == 0x94000000)) [
        | inl h ↦
            rw h (rewritten-Grows idx s (fix_branch opc idx a s1) (fix_branch-Grows opc idx a s1))
        | inr h ↦ rw h tt
      ]

  pub fix_cond-GrowsIfTaken : (s : State) → GrowsIfTaken s (fix_cond_comp_test_branch load s)
  unfolding fix_cond_comp_test_branch
  fix_cond-GrowsIfTaken s = elim (Option-cases (cond_lmask load (load s.inp))) [
    | inl h ↦ rw (h, GrowsIfTaken) tt
    | inr (lmask, h) ↦ rw (h, GrowsIfTaken) (fix_cond-Grows lmask s)
  ]

  pub fix_pcreladdr-Grows : (s : State) → GrowsIfTaken s (fix_pcreladdr load s)
  unfolding fix_pcreladdr
  fix_pcreladdr-Grows s =
      let kind = bit_and (load s.inp) 0x9f000000 in
      elim (Bool-cases (kind == 0x10000000)) [
        | inl h ↦ rw h (fix_adr-Grows s)
        | inr h ↦ elim (Bool-cases (kind == 0x90000000)) [
          | inl h' ↦ rw h (rw h' (fix_adrp-Grows s))
          | inr h' ↦ rw h (rw h' tt)
        ]
      ]
