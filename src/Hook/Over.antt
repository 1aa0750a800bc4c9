-- ===== src/Hook/Over.antt =====
-- A `B` over instructions that are copied, in the loop of src/lib/hook/nx64/hook_impl.cpp.
mod Tests
use mathlib.Core.List.{append_assoc, append-nil}
use mathlib.Core.Path.{subst}
use zeldar.Base.{
  ℕ, zero, suc, ◌+◌, ◌-◌, ◌*◌, ◌/◌, ◌%◌, ◌^◌, ◌≤◌, ◌<◌, ◌≡◌, ◌≢◌, ◌⊎◌, inl, inr, refl, sym, ap, ◌∙◌,
  arith, Bool, true, false, not, ◌&&◌, ◌||◌, ◌==◌, Option, none, some, List, [], ◌∷◌, ◌++◌, bit_and,
  bit_or, leb, if◌then◌else◌, add64, sub64, asr64, length, length-append, get_or, set,
  get_or-set_self, get_or-set_ne, length-set, replicate,
}
use zeldar.Armv8.Isa.{field, branch_target}
use zeldar.Hook.Context.{
  State, Context, FixInfo, InsnsInfo, free_info, free_insns, outprx, emit, dat_at, set_current,
  current_index, get_ref_ins_index, is_in_fixing_range, process_infos, process_fix_map,
}
use zeldar.Hook.Fix.{cond_lmask, fix_cond, fix_branch_imm, fix_cond_comp_test_branch}
use zeldar.Hook.Fix.Literal.{words_at, literal_kind, fix_literal, fix_loadlit}
use zeldar.Hook.Fix.Address.{fix_pcreladdr}
use zeldar.Hook.Fix.Loop.{or_else, copy_instruction, fix_instruction, fix_loop}
use zeldar.Hook.Jumps.{IsCode, leaves-branch}
use zeldar.Hook.Exec.{leaves}
use zeldar.Hook.Install.{is_far}
use zeldar.Hook.Branches.{IsUnreferenced, set_current-IsUnreferenced}
use zeldar.Hook.References.{waits, fix_branch_imm-waits, processed, branch_to, fixed_up}
use zeldar.Hook.Copied.{
  IsPlain, fix_instruction-plain, index_lem, IsCopied, plain_run, fix_loop-snoc,
  fix_instruction-branch, words_at-snoc, copied_target,
}

-- A place a few words ahead is within reach.
near_lem :
    (at place : ℕ) → (at ≤ place) × (place ≤ at + 16) × (place < 2 ^ 64) → is_far at place ≡ false
unfolding is_far
near_lem at place (le, near, below) = ground arith

set-append_end :
    (xs ys : List ℕ) (x v : ℕ) → set ((xs ++ x ∷ []) ++ ys) (length xs) v ≡ xs ++ v ∷ ys
set-append_end [] ys x v = refl
set-append_end (z ∷ xs) ys x v = ap (λ (l : List ℕ). z ∷ l) (set-append_end xs ys x v)

own_place :
    (t : State) (j : ℕ)
    → j < length t.ctx.dat
    → ((dat_at (set_current j t).ctx j).ins ≡ outprx t)
      × ((dat_at (set_current j t).ctx j).fmap ≡ (dat_at t.ctx j).fmap)
unfolding set_current dat_at
own_place t j inside =
    let e = get_or-set_self t.ctx.dat j _ free_insns inside in
    (ap (λ (i : InsnsInfo). i.ins) e, ap (λ (i : InsnsInfo). i.fmap) e)

length-words_at : (load : ℕ → ℕ) (n a : ℕ) → length (words_at load n a) ≡ n
unfolding words_at
length-words_at load zero a = refl
length-words_at load (suc n) a = ap suc (length-words_at load n (add64 a 4))

-- The instruction that one `B` waits for, when it is reached.
target_reached :
    (load : ℕ → ℕ) (t : State) (j at : ℕ) (before tail : List ℕ)
    → t.out ≡ (before ++ 0x14000000 ∷ []) ++ tail
    → (dat_at t.ctx j).fmap ≡ waits (length before) at
    → current_index t ≡ j
    → j < length t.ctx.dat
    → IsPlain load (load t.inp)
    → is_far at (outprx t) ≡ false
    → IsCode at
    → IsCode (outprx t)
    → (b : ℕ) × ((fix_instruction load t).out ≡ before ++ b ∷ (tail ++ load t.inp ∷ []))
      × (leaves at (b ∷ []) ≡ some (outprx t))
unfolding set_current is_far
target_reached load t j at before tail out waiting index inside plain near h h' =
    let u = set_current j t in
    let (place, fmap) = own_place t j inside in
    let near_place = subst (λ (a : ℕ). is_far at a ≡ false) (sym place) near in
    let done = processed u j at before tail out (fmap ∙ waiting) near_place in
    let b = bit_or 0x14000000 (bit_and (asr64 (sub64 (dat_at u.ctx j).ins at) 2) 0x03ffffff) in
    let code = subst IsCode (sym place) h' in
    (
      b,
      ap (λ (v : State). v.out) (fix_instruction-plain load t plain)
          ∙ copied_target load t j index
          ∙ ap (λ (o : List ℕ). o ++ load t.inp ∷ []) done
          ∙ ap (λ (o : List ℕ). set o (length before) b ++ load t.inp ∷ []) out
          ∙ ap (λ (o : List ℕ). o ++ load t.inp ∷ []) (set-append_end before tail 0x14000000 b)
          ∙ append_assoc before (b ∷ tail) (load t.inp ∷ []),
      leaves-branch at (dat_at u.ctx j).ins h code near_place ∙ ap some place,
    )

module _ (load : ℕ → ℕ) (s : State) (word : load s.inp < 2 ^ 32) (op : field 26 6 (load s.inp) ≡ 5)
    (special : is_in_fixing_range s.ctx (branch_target s.inp (load s.inp)) ≡ true) (n idx : ℕ)
    (at : s.inp ≡ s.ctx.basep + 4 * idx) (room : s.inp + 4 * (n + 2) < 2 ^ 64)
    (over : branch_target s.inp (load s.inp) ≡ s.inp + 4 * (n + 1)) (few : n ≤ 3)
    (known : idx + n + 1 < length s.ctx.dat)
    (free : (i : ℕ) → i ≤ idx + n + 1 → IsUnreferenced i s.ctx)
    (plain : (k : ℕ) → k ≤ n → IsPlain load (load (s.inp + 4 + 4 * k))) (code : IsCode (outprx s))
    (fits : outprx s + 4 * (n + 2) < 2 ^ 64) where
  own_eq : current_index s ≡ idx
  own_eq = index_lem load s idx at (omega arith)

  goal_eq : get_ref_ins_index s.ctx (branch_target s.inp (load s.inp)) ≡ idx + n + 1
  unfolding get_ref_ins_index
  goal_eq = rw over (omega arith)

  after_branch :
      (s' : State) × (fix_branch_imm load s ≡ some s')
      × (s'.out ≡ s.out ++ 0x14000000 ∷ [])
      × ((dat_at s'.ctx (idx + n + 1)).fmap ≡ waits (length s.out) (outprx s))
      × (s'.inp ≡ add64 s.inp 4)
      × (s'.ctx.basep ≡ s.ctx.basep)
      × (s'.out_base ≡ s.out_base)
      × (length s'.ctx.dat ≡ length s.ctx.dat)
      × ((i : ℕ) → idx ≢ i → idx + n + 1 ≢ i → dat_at s'.ctx i ≡ dat_at s.ctx i)
  after_branch =
      let (s', runs, out, waiting, inp, base, out_base, length_eq, others) =
        fix_branch_imm-waits load s word op special (free (current_index s) (omega (arith, own_eq)))
          (omega (arith, own_eq, goal_eq)) (omega (arith, goal_eq))
          (free (get_ref_ins_index s.ctx (branch_target s.inp (load s.inp)))
            (omega (arith, goal_eq))) in
      (
        s',
        runs,
        out,
        subst (λ (j : ℕ). (dat_at s'.ctx j).fmap ≡ waits (length s.out) (outprx s)) goal_eq waiting,
        inp,
        base,
        out_base,
        length_eq,
        λ i ne ne'. others i (λ e. ne (sym own_eq ∙ e)) (λ e. ne' (sym goal_eq ∙ e)),
      )

  all_out :
      (s' : State) (b : ℕ)
      → fix_branch_imm load s ≡ some s'
      → (fix_loop load n s').inp ≡ add64 s.inp 4 + 4 * n
      → (fix_instruction load (fix_loop load n s')).out
        ≡ s.out ++ b ∷ (words_at load n (add64 s.inp 4) ++ load (fix_loop load n s').inp ∷ [])
      → (fix_loop load (suc (suc n)) s).out ≡ s.out ++ b ∷ words_at load (suc n) (add64 s.inp 4)
  unfolding fix_loop
  all_out s' b runs t_inp reached =
      let start = add64 s.inp 4 in
      ap (λ (v : State). (fix_loop load (suc n) v).out) (fix_instruction-branch load s s' runs)
      ∙ ap (λ (v : State). v.out) (fix_loop-snoc load n s')
      ∙ reached
      ∙ ap (λ (x : ℕ). s.out ++ b ∷ (words_at load n start ++ load x ∷ [])) t_inp
      ∙ ap (λ (l : List ℕ). s.out ++ b ∷ l) (words_at-snoc load n start (omega arith))

  from_branch :
      (s' : State) (j : ℕ)
      → j ≡ idx + n + 1
      → fix_branch_imm load s ≡ some s'
      → s'.out ≡ s.out ++ 0x14000000 ∷ []
      → (dat_at s'.ctx j).fmap ≡ waits (length s.out) (outprx s)
      → s'.inp ≡ add64 s.inp 4
      → s'.ctx.basep ≡ s.ctx.basep
      → s'.out_base ≡ s.out_base
      → length s'.ctx.dat ≡ length s.ctx.dat
      → ((i : ℕ) → idx ≢ i → j ≢ i → dat_at s'.ctx i ≡ dat_at s.ctx i)
      → (b : ℕ) × ((fix_loop load (suc (suc n)) s).out
          ≡ s.out ++ b ∷ words_at load (suc n) (add64 s.inp 4))
        × (leaves (outprx s) (b ∷ []) ≡ some (outprx s + 4 * (n + 1)))
  unfolding fix_loop
  from_branch s' j j_eq runs out waiting inp base out_base length_eq others =
      let inp' : s'.inp ≡ s.inp + 4 = omega (arith, inp) in
      let copied =
        plain_run load n (idx + 1) j s' (omega (arith, inp', base)) (omega (arith, inp'))
          (omega arith)
          (λ k lt.
            subst (λ (a : ℕ). IsPlain load (load (a + 4 * k))) (sym inp') (plain k (omega arith)))
          (λ k lt.
            ap (λ (i : InsnsInfo). i.fmap)
              (others (idx + 1 + k) (λ e. omega (arith, e)) (λ e. omega (arith, e, j_eq)))
            ∙ free (idx + 1 + k) (omega arith)) in
      let t = fix_loop load n s' in
      let start = add64 s.inp 4 in
      let same_start : start ≡ s.inp + 4 = omega arith in
      let t_inp : t.inp ≡ start + 4 * n = omega (arith, copied.inp, inp', same_start) in
      let out_t =
        copied.out
        ∙ ap (λ (o : List ℕ). o ++ words_at load n s'.inp) out
        ∙ ap (λ (a : ℕ). (s.out ++ 0x14000000 ∷ []) ++ words_at load n a) inp in
      let place_t : outprx t ≡ outprx s + 4 * (n + 1) = omega (
        arith,
        copied.out_base,
        out_base,
        ap length out_t,
        length-append (s.out ++ 0x14000000 ∷ []) (words_at load n start),
        length-append s.out (0x14000000 ∷ []),
        length-words_at load n start,
      ) in
      let (b, reached, goes) =
        target_reached load t j (outprx s) s.out (words_at load n start) out_t
          (ap (λ (i : InsnsInfo). i.fmap) copied.info ∙ waiting)
          (index_lem load t j (omega (arith, t_inp, same_start, copied.base, base))
            (omega (arith, t_inp, same_start)))
          (omega (arith, copied.known, length_eq))
          (subst (λ (a : ℕ). IsPlain load (load a)) (omega (arith, t_inp, same_start))
            (plain n (omega arith)))
          (near_lem (outprx s) (outprx t) (omega (arith, place_t))) code
          (omega (arith, place_t), omega (arith, place_t)) in
      (b, all_out s' b runs t_inp reached, goes ∙ ap some place_t)

  -- A `B` over at most three instructions that are copied, to one that is copied, none of them
  -- referred to before: when all these have been rewritten, one word for each has been added, the
  -- first one is a branch to the last, and the others are those that were there.
  pub fix_loop-over :
      (b : ℕ) × ((fix_loop load (suc (suc n)) s).out
        ≡ s.out ++ b ∷ words_at load (suc n) (add64 s.inp 4))
      × (leaves (outprx s) (b ∷ []) ≡ some (outprx s + 4 * (n + 1)))
  fix_loop-over =
      let (s', runs, out, waiting, inp, base, out_base, length_eq, others) = after_branch in
      from_branch s' (idx + n + 1) refl runs out waiting inp base out_base length_eq others
