-- ===== src/Hook/References.antt =====
-- References among the rewritten instructions, in src/lib/hook/nx64/hook_impl.cpp: a `B` to an earlier
-- one goes to its recorded place, and one to a later one is fixed up when that is reached.

use zeldar.Base.{
  ℕ, ◌*◌, ◌/◌, ◌%◌, ◌^◌, ◌<◌, ◌≡◌, ◌≢◌, ◌⊎◌, inl, inr, refl, sym, ap, ◌∙◌, arith, true, false, some,
  List, [], ◌∷◌, ◌++◌, bit_and, bit_or, leb, add64, sub64, asr64, asr32, u32, llabs, length,
  length-append, length-set, get_or, set, get_or-set_self, get_or-set_ne, replicate,
}
use native.Mathlib.Decide.{ℕ_discrete}
use zeldar.Base.Masks.{mask_low}
use zeldar.Armv8.Isa.{field, branch_target}
use zeldar.Hook.Context.{
  State, Context, FixInfo, InsnsInfo, free_info, free_insns, outprx, emit, dat_at, set_current,
  current_index, get_ref_ins_index, is_in_fixing_range, insert_info, insert_fix_map, fixed_word,
  process_infos, process_fix_map, finish,
}
use zeldar.Hook.Fix.{refer, fix_branch, near_branch, fix_branch_imm}
use zeldar.Hook.Exec.{leaves}
use zeldar.Hook.Install.{is_far}
use zeldar.Hook.Jumps.{IsCode, leaves-branch, branch_absolute_addr_lem}
use zeldar.Hook.Branches.{
  IsUnreferenced, out-finish, set_current-IsUnreferenced, set_current-range, opcode,
  fix_branch_imm-b,
}

-- The map of an instruction that one `B`, at the index `at` of the output and at the address `place`,
-- refers to.
abbrev pub waits : (at place : ℕ) → List FixInfo
waits at place =
    record { bprw = some at; bprx = place; ls = 0; ad = 0x03ffffff } ∷ replicate 9 free_info

-- A distance within reach survives the cut to 32 bits.
same_distance :
    (d : ℕ)
    → d < 2 ^ 64
    → leb (0x03ffffff / 2) (llabs (asr64 d 2)) ≡ false
    → u32 (asr32 (u32 d) 2 * 2 ^ 0) % 2 ^ 26 ≡ asr64 d 2 % 2 ^ 26
same_distance d h near = ground arith

-- The word that is fixed up is the branch to the place.
fixed_branch :
    (at place i : ℕ)
    → is_far at place ≡ false
    → fixed_word place 0x14000000 (record { bprw = some i; bprx = at; ls = 0; ad = 0x03ffffff })
      ≡ bit_or 0x14000000 (bit_and (asr64 (sub64 place at) 2) 0x03ffffff)
unfolding fixed_word is_far
fixed_branch at place i near =
    let d = sub64 place at in
    ap (bit_or 0x14000000) (
      mask_low 26 (u32 (asr32 (u32 d) 2 * 2 ^ 0))
      ∙ same_distance d (omega arith) near
      ∙ sym (mask_low 26 (asr64 d 2)))

get_or-append_end : (xs ys : List ℕ) (x d : ℕ) → get_or ((xs ++ x ∷ []) ++ ys) (length xs) d ≡ x
get_or-append_end [] ys x d = refl
get_or-append_end (z ∷ xs) ys x d = get_or-append_end xs ys x d

-- A state whose output goes on behind the word that waits.
module _ (t : State) (j at : ℕ) (before tail : List ℕ)
    (out : t.out ≡ (before ++ 0x14000000 ∷ []) ++ tail)
    (waiting : (dat_at t.ctx j).fmap ≡ waits (length before) at)
    (near : is_far at (dat_at t.ctx j).ins ≡ false) where
  abbrev pub branch_to : ℕ
  branch_to = bit_or 0x14000000 (bit_and (asr64 (sub64 (dat_at t.ctx j).ins at) 2) 0x03ffffff)

  pub processed : (process_fix_map j t).out ≡ set t.out (length before) branch_to
  unfolding process_fix_map process_infos
  processed =
      let read : get_or t.out (length before) 0 ≡ 0x14000000 =
        ap (λ (o : List ℕ). get_or o (length before) 0) out
        ∙ get_or-append_end before tail 0x14000000 0 in
      rw waiting (rw read (rw (fixed_branch at (dat_at t.ctx j).ins (length before) near) refl))

  inside : length before < length t.out
  inside = omega (
    arith,
    ap length out,
    length-append (before ++ 0x14000000 ∷ []) tail,
    length-append before (0x14000000 ∷ []),
  )

  pub fixed_up :
      IsCode at
      → IsCode (dat_at t.ctx j).ins
      → leaves at (get_or (process_fix_map j t).out (length before) 0 ∷ [])
        ≡ some (dat_at t.ctx j).ins
  unfolding is_far
  fixed_up h h' =
      ap (λ (o : List ℕ). leaves at (get_or o (length before) 0 ∷ [])) processed
      ∙ ap (λ (x : ℕ). leaves at (x ∷ []))
          (get_or-set_self t.out (length before) branch_to 0 inside)
      ∙ leaves-branch at (dat_at t.ctx j).ins h h' near

  others_kept :
      (i : ℕ) → (i ≡ length before) ⊎ (get_or (process_fix_map j t).out i 0 ≡ get_or t.out i 0)
  others_kept i = elim (ℕ_discrete i (length before)) [
    | yes same ↦ inl same
    | no other ↦ inr (
        ap (λ (o : List ℕ). get_or o i 0) processed
        ∙ get_or-set_ne t.out (length before) i branch_to 0 (λ e. other (sym e)))
  ]

some_eq : {a b : State} → some a ≡ some b → a ≡ b
some_eq e = cc

fmap-inserted :
    (c : Context) (j at place : ℕ)
    → j < length c.dat
    → IsUnreferenced j c
    → (dat_at (insert_fix_map j at place 0 0x03ffffff c) j).fmap ≡ waits at place
unfolding insert_fix_map dat_at insert_info
fmap-inserted c j at place inside free =
    ap (λ (i : InsnsInfo). i.fmap) (get_or-set_self c.dat j _ free_insns inside)
    ∙ ap (insert_info (record { bprw = some at; bprx = place; ls = 0; ad = 0x03ffffff })) free

dat_at-insert_fix_map :
    (c : Context) (j at place i : ℕ)
    → j ≢ i
    → dat_at (insert_fix_map j at place 0 0x03ffffff c) i ≡ dat_at c i
unfolding insert_fix_map dat_at
dat_at-insert_fix_map c j at place i ne = get_or-set_ne c.dat j i _ free_insns ne

dat_at-finish : (idx j : ℕ) (b : State) → idx ≢ j → dat_at (finish idx b).ctx j ≡ dat_at b.ctx j
unfolding finish process_fix_map dat_at
dat_at-finish idx j b ne = get_or-set_ne b.ctx.dat idx j _ free_insns ne

pub dat_at-set_current :
    (idx j : ℕ) (s : State) → idx ≢ j → dat_at (set_current idx s).ctx j ≡ dat_at s.ctx j
unfolding set_current dat_at
dat_at-set_current idx j s ne = get_or-set_ne s.ctx.dat idx j _ free_insns ne

module _ (load : ℕ → ℕ) (s : State) (word : load s.inp < 2 ^ 32) (op : field 26 6 (load s.inp) ≡ 5)
    (special : is_in_fixing_range s.ctx (branch_target s.inp (load s.inp)) ≡ true)
    (free : IsUnreferenced (current_index s) s.ctx) where
  abbrev goal : ℕ
  goal = get_ref_ins_index s.ctx (branch_target s.inp (load s.inp))

  abbrev own : ℕ
  own = current_index s

  abbrev written : State
  written =
      finish own (fix_branch 0x14000000 own (branch_target s.inp (load s.inp)) (set_current own s))

  runs : fix_branch_imm load s ≡ some written
  runs =
      fix_branch_imm-b load s word (opcode load s word 5 op)
      ∙ ap (λ (a : ℕ). some (finish own (fix_branch 0x14000000 own a (set_current own s))))
          (branch_absolute_addr_lem load s word)

  inside_range :
      is_in_fixing_range (set_current own s).ctx (branch_target s.inp (load s.inp)) ≡ true
  inside_range = set_current-range own (branch_target s.inp (load s.inp)) s ∙ special

  forward_body :
      own < goal
      → let s1 = set_current own s in
        fix_branch 0x14000000 own (branch_target s.inp (load s.inp)) s1
        ≡ emit
            (0x14000000 ∷ [])
            (record s1 { ctx = insert_fix_map goal (length s.out) (outprx s) 0 0x03ffffff s1.ctx })
  unfolding fix_branch near_branch refer set_current get_ref_ins_index
  forward_body ahead = let gt : leb goal own ≡ false = ground arith in rw (inside_range, gt) refl

  module _ (ahead : own < goal) (known : goal < length s.ctx.dat)
      (unreferenced : IsUnreferenced goal s.ctx) where
    abbrev waiting_state : State
    waiting_state =
        let s1 = set_current own s in
        emit (0x14000000 ∷ [])
          (record s1 { ctx = insert_fix_map goal (length s.out) (outprx s) 0 0x03ffffff s1.ctx })

    written_eq : written ≡ finish own waiting_state
    written_eq = ap (finish own) (forward_body ahead)

    apart : own ≢ goal
    apart e = omega (arith, e)

    waiting_out : written.out ≡ s.out ++ 0x14000000 ∷ []
    unfolding emit set_current
    waiting_out =
        ap (λ (b : State). b.out) written_eq
        ∙ out-finish own waiting_state (
            ap (λ (i : InsnsInfo). i.fmap)
              (dat_at-insert_fix_map (set_current own s).ctx goal (length s.out) (outprx s) own
                (λ e. apart (sym e)))
            ∙ set_current-IsUnreferenced own s free)

    goal_known : goal < length (set_current own s).ctx.dat
    unfolding set_current
    goal_known = omega (arith, length-set {0} s.ctx.dat own)

    waiting_fmap : (dat_at written.ctx goal).fmap ≡ waits (length s.out) (outprx s)
    unfolding emit
    waiting_fmap =
        ap (λ (b : State). (dat_at b.ctx goal).fmap) written_eq
        ∙ ap (λ (i : InsnsInfo). i.fmap) (dat_at-finish own goal waiting_state apart)
        ∙ fmap-inserted (set_current own s).ctx goal (length s.out) (outprx s) goal_known
            (ap (λ (i : InsnsInfo). i.fmap) (dat_at-set_current own goal s apart) ∙ unreferenced)

    -- The rest of the state, and what waits for the other instructions.
    pub fix_branch_imm-waits :
        (s' : State) × (fix_branch_imm load s ≡ some s')
        × (s'.out ≡ s.out ++ 0x14000000 ∷ [])
        × ((dat_at s'.ctx goal).fmap ≡ waits (length s.out) (outprx s))
        × (s'.inp ≡ add64 s.inp 4)
        × (s'.ctx.basep ≡ s.ctx.basep)
        × (s'.out_base ≡ s.out_base)
        × (length s'.ctx.dat ≡ length s.ctx.dat)
        × ((i : ℕ) → own ≢ i → goal ≢ i → dat_at s'.ctx i ≡ dat_at s.ctx i)
    unfolding finish process_fix_map emit set_current insert_fix_map
    fix_branch_imm-waits = (
      finish own waiting_state,
      runs ∙ ap some written_eq,
      sym (ap (λ (b : State). b.out) written_eq) ∙ waiting_out,
      sym (ap (λ (b : State). (dat_at b.ctx goal).fmap) written_eq) ∙ waiting_fmap,
      refl,
      refl,
      refl,
      length-set _ own _ ∙ length-set _ goal _ ∙ length-set s.ctx.dat own _,
      λ i ne ne'.
          dat_at-finish own i waiting_state ne
          ∙ dat_at-insert_fix_map (set_current own s).ctx goal (length s.out) (outprx s) i ne'
          ∙ dat_at-set_current own i s ne,
    )

  -- A `B` to a later rewritten instruction, to which no other one refers, is rewritten to one
  -- word, a `B` without a distance. When that instruction is reached, at a place within reach, and the
  -- output has only grown and its references have not changed since, the word becomes a branch to this
  -- place, and no other word changes.
  pub fix_branch_imm-fixed_up :
      (s' t : State) (tail : List ℕ)
      → own < goal
      → goal < length s.ctx.dat
      → IsUnreferenced goal s.ctx
      → fix_branch_imm load s ≡ some s'
      → t.out ≡ s'.out ++ tail
      → (dat_at t.ctx goal).fmap ≡ (dat_at s'.ctx goal).fmap
      → IsCode (outprx s)
      → IsCode (dat_at t.ctx goal).ins
      → is_far (outprx s) (dat_at t.ctx goal).ins ≡ false
      → (s'.out ≡ s.out ++ 0x14000000 ∷ [])
        × (leaves (outprx s) (get_or (process_fix_map goal t).out (length s.out) 0 ∷ [])
            ≡ some (dat_at t.ctx goal).ins)
        × ((i : ℕ)
            → (i ≡ length s.out) ⊎ (get_or (process_fix_map goal t).out i 0 ≡ get_or t.out i 0))
  fix_branch_imm-fixed_up s' t tail ahead known unreferenced returned grown same h h' near =
      let is_written : s' ≡ written = some_eq (sym returned ∙ runs) in
      let one_word = ap (λ (b : State). b.out) is_written ∙ waiting_out ahead known unreferenced in
      let out = grown ∙ ap (λ (o : List ℕ). o ++ tail) one_word in
      let waiting =
        same
        ∙ ap (λ (b : State). (dat_at b.ctx goal).fmap) is_written
        ∙ waiting_fmap ahead known unreferenced in
      (
        one_word,
        fixed_up t goal (outprx s) s.out tail out waiting near h h',
        others_kept t goal (outprx s) s.out tail out waiting near,
      )
