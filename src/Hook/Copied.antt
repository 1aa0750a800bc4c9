-- ===== src/Hook/Copied.antt =====
-- Instructions that are copied as they are, in the loop of src/lib/hook/nx64/hook_impl.cpp.
use mathlib.Core.List.{append_assoc, append-nil}
use mathlib.Core.Path.{subst}
use zeldar.Base.{
  ℕ, zero, suc, ◌+◌, ◌*◌, ◌^◌, ◌≤◌, ◌<◌, ◌≡◌, ◌≢◌, refl, sym, ap, ◌∙◌, arith, false, ◌==◌, Option,
  none, some, List, [], ◌∷◌, ◌++◌, bit_and, add64, length, get_or-set_ne, length-set,
}
use zeldar.Hook.Context.{
  State, FixInfo, InsnsInfo, free_insns, emit, dat_at, set_current, current_index,
  get_ref_ins_index, process_infos, process_fix_map,
}
use zeldar.Hook.Fix.{cond_lmask, fix_cond, fix_branch_imm, fix_cond_comp_test_branch}
use zeldar.Hook.Fix.Literal.{words_at, literal_kind, fix_literal, fix_loadlit}
use zeldar.Hook.Fix.Address.{fix_pcreladdr}
use zeldar.Hook.Fix.Loop.{or_else, copy_instruction, fix_instruction, fix_loop}
use zeldar.Hook.Branches.{IsUnreferenced, set_current-IsUnreferenced}

-- A word that none of the four functions takes.
unfoldable pub IsPlain : (ℕ → ℕ) → ℕ → Type 0
IsPlain load ins =
    (bit_and ins 0xfc000000 ≢ 0x14000000)
    × (bit_and ins 0xfc000000 ≢ 0x94000000)
    × (cond_lmask load ins ≡ none)
    × (bit_and ins 0xff000000 ≢ 0xd8000000)
    × (literal_kind ins ≡ none)
    × (bit_and ins 0x9f000000 ≢ 0x10000000)
    × (bit_and ins 0x9f000000 ≢ 0x90000000)

==-false_ne : (a b : ℕ) → a ≢ b → (a == b) ≡ false
==-false_ne a b ne = ground arith

module _ (load : ℕ → ℕ) where
  fix_instruction-none :
      (s : State)
      → fix_branch_imm load s ≡ none
      → fix_cond_comp_test_branch load s ≡ none
      → fix_loadlit load s ≡ none
      → fix_pcreladdr load s ≡ none
      → fix_instruction load s ≡ copy_instruction load s
  unfolding fix_instruction
  fix_instruction-none s b cond literal adr =
      let last = fix_pcreladdr load s in
      let third = or_else (fix_loadlit load s) last in
      let second = or_else (fix_cond_comp_test_branch load s) third in
      let chain : or_else (fix_branch_imm load s) second ≡ none =
        ap (λ (m : Option State). or_else m second) b
        ∙ ap (λ (m : Option State). or_else m third) cond
        ∙ ap (λ (m : Option State). or_else m last) literal
        ∙ adr in
      ap
        (λ (m : Option State). elim m as (λ x. State) [
          | some s' ↦ s'
          | none ↦ copy_instruction load s
        ])
        chain

  pub fix_instruction-plain :
      (s : State) → IsPlain load (load s.inp) → fix_instruction load s ≡ copy_instruction load s
  unfolding IsPlain fix_branch_imm fix_cond_comp_test_branch fix_loadlit fix_pcreladdr
  fix_instruction-plain s (no_b, no_bl, no_cond, no_prefetch, no_literal, no_adr, no_adrp) =
      fix_instruction-none s (rw (==-false_ne _ _ no_b, ==-false_ne _ _ no_bl) refl)
        (ap
          (λ (m : Option ℕ). elim m as (λ x. Option State) [
            | none ↦ none
            | some lmask ↦ some (fix_cond load lmask s)
          ])
          no_cond)
        (rw (==-false_ne _ _ no_prefetch) (
          ap
            (λ (m : Option (ℕ × ℕ)). elim m as (λ x. Option State) [
              | none ↦ none
              | some (mask, faligned) ↦ some (fix_literal load mask faligned s)
            ])
            no_literal))
        (rw (==-false_ne _ _ no_adr, ==-false_ne _ _ no_adrp) refl)

  -- A copied instruction that nothing refers to.
  copied_out :
      (s : State)
      → IsUnreferenced (current_index s) s.ctx
      → (copy_instruction load s).out ≡ s.out ++ load s.inp ∷ []
  unfolding copy_instruction process_fix_map process_infos emit set_current
  copied_out s free =
      let waiting = set_current-IsUnreferenced (current_index s) s free in
      ap
        (λ (fm : List FixInfo).
          process_infos (dat_at (set_current (current_index s) s).ctx (current_index s)).ins fm
            s.out
          ++ load s.inp ∷ [])
        waiting

  copied_dat :
      (s : State) (j : ℕ)
      → current_index s ≢ j
      → dat_at (copy_instruction load s).ctx j ≡ dat_at s.ctx j
  unfolding copy_instruction process_fix_map emit set_current dat_at
  copied_dat s j ne =
      get_or-set_ne _ (current_index s) j _ free_insns ne
      ∙ get_or-set_ne s.ctx.dat (current_index s) j _ free_insns ne

  copied_rest :
      (s : State)
      → ((copy_instruction load s).inp ≡ add64 s.inp 4)
        × ((copy_instruction load s).ctx.basep ≡ s.ctx.basep)
        × ((copy_instruction load s).out_base ≡ s.out_base)
  unfolding copy_instruction process_fix_map emit set_current
  copied_rest s = (refl, refl, refl)

  copied_length : (s : State) → length (copy_instruction load s).ctx.dat ≡ length s.ctx.dat
  unfolding copy_instruction process_fix_map emit set_current
  copied_length s = length-set _ (current_index s) _ ∙ length-set s.ctx.dat (current_index s) _

  pub index_lem :
      (s : State) (idx : ℕ) → s.inp ≡ s.ctx.basep + 4 * idx → s.inp < 2 ^ 64 → current_index s ≡ idx
  unfolding current_index get_ref_ins_index
  index_lem s idx at below = omega arith

  -- What stays the same while instructions before `goal` are copied.
  pub record IsCopied (n goal : ℕ) (u t : State) : Type 0 where
    pub out : t.out ≡ u.out ++ words_at load n u.inp
    pub inp : t.inp ≡ u.inp + 4 * n
    pub base : t.ctx.basep ≡ u.ctx.basep
    pub out_base : t.out_base ≡ u.out_base
    pub info : dat_at t.ctx goal ≡ dat_at u.ctx goal
    pub known : length t.ctx.dat ≡ length u.ctx.dat

  pub plain_run :
      (n idx goal : ℕ) (u : State)
      → u.inp ≡ u.ctx.basep + 4 * idx
      → u.inp + 4 * n < 2 ^ 64
      → idx + n ≤ goal
      → ((k : ℕ) → k < n → IsPlain load (load (u.inp + 4 * k)))
      → ((k : ℕ) → k < n → IsUnreferenced (idx + k) u.ctx)
      → IsCopied n goal u (fix_loop load n u)
  unfolding fix_loop words_at
  plain_run zero idx goal u at below le plain free = record {
    out = sym (append-nil u.out);
    inp = omega arith;
    base = refl;
    out_base = refl;
    info = refl;
    known = refl;
  }
  plain_run (suc n) idx goal u at below le plain free =
      let v = copy_instruction load u in
      let (inp, base, out_base) = copied_rest u in
      let idx_eq = index_lem u idx at (omega arith) in
      let is_plain = plain 0 (omega arith) in
      let free_here = free 0 (omega arith) in
      let next_inp : v.inp ≡ u.inp + 4 = omega (arith, inp) in
      let unreferenced =
        subst (λ (i : ℕ). IsUnreferenced i u.ctx) (index_first idx idx_eq) free_here in
      let rest : IsCopied n goal v (fix_loop load n v) =
        plain_run n (idx + 1) goal v (omega (arith, next_inp, base)) (omega (arith, next_inp))
          (omega arith)
          (λ k lt.
            subst (λ (a : ℕ). IsPlain load (load a)) (omega (arith, next_inp))
              (plain (suc k) (omega arith)))
          (λ k lt.
            ap (λ (i : InsnsInfo). i.fmap)
              (copied_dat u (idx + 1 + k) (λ e. omega (arith, e, idx_eq)))
            ∙ subst (λ (i : ℕ). IsUnreferenced i u.ctx) (index_next idx k)
                (free (suc k) (omega arith))) in
      let done : IsCopied (suc n) goal u (fix_loop load n v) = record {
        out =
            rest.out
            ∙ ap (λ (o : List ℕ). o ++ words_at load n v.inp) (copied_out u unreferenced)
            ∙ append_assoc u.out (load u.inp ∷ []) (words_at load n v.inp);
        inp = omega (arith, rest.inp, next_inp);
        base = rest.base ∙ base;
        out_base = rest.out_base ∙ out_base;
        info = rest.info ∙ copied_dat u goal (λ e. omega (arith, e, idx_eq));
        known = rest.known ∙ copied_length u;
      } in
      subst (λ (w : State). IsCopied (suc n) goal u (fix_loop load n w))
        (sym (
          fix_instruction-plain u
            (subst (λ (a : ℕ). IsPlain load (load a)) (plus_none u.inp) is_plain)))
        done
    where
      index_first : (idx : ℕ) → current_index u ≡ idx → idx + 0 ≡ current_index u
      index_first idx e = omega (arith, e)

      index_next : (idx k : ℕ) → idx + suc k ≡ idx + 1 + k
      index_next idx k = omega arith

      plus_none : (a : ℕ) → a + 4 * 0 ≡ a
      plus_none a = omega arith

  pub fix_loop-snoc :
      (n : ℕ) (u : State) → fix_loop load (suc n) u ≡ fix_instruction load (fix_loop load n u)
  unfolding fix_loop
  fix_loop-snoc zero u = refl
  fix_loop-snoc (suc n) u = fix_loop-snoc n (fix_instruction load u)

  pub fix_instruction-branch :
      (s s' : State) → fix_branch_imm load s ≡ some s' → fix_instruction load s ≡ s'
  unfolding fix_instruction
  fix_instruction-branch s s' e =
      ap
        (λ (m : Option State).
          elim (or_else m (
              or_else (fix_cond_comp_test_branch load s)
                (or_else (fix_loadlit load s) (fix_pcreladdr load s))))
            as (λ x. State) [ some s' ↦ s' | none ↦ copy_instruction load s ])
        e

  pub words_at-snoc :
      (n a : ℕ)
      → a + 4 * n < 2 ^ 64
      → words_at load n a ++ load (a + 4 * n) ∷ [] ≡ words_at load (suc n) a
  unfolding words_at
  words_at-snoc zero a below = let e : a + 4 * 0 ≡ a = omega arith in rw e refl
  words_at-snoc (suc n) a below =
      let e : add64 a 4 + 4 * n ≡ a + 4 * suc n = omega arith in
      ap (λ (ws : List ℕ). load a ∷ ws)
        (ap (λ (i : ℕ). words_at load n (add64 a 4) ++ load i ∷ []) (sym e)
          ∙ words_at-snoc n (add64 a 4) (omega arith))

  -- The instruction that is referred to, with its references.
  pub copied_target :
      (t : State) (j : ℕ)
      → current_index t ≡ j
      → (copy_instruction load t).out ≡ (process_fix_map j (set_current j t)).out ++ load t.inp ∷ []
  unfolding copy_instruction emit
  copied_target t j e =
      ap (λ (i : ℕ). (process_fix_map i (set_current i t)).out ++ load t.inp ∷ []) e
