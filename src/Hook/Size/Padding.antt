-- ===== src/Hook/Size/Padding.antt =====
-- The padding loops of `__fix_loadlit` in src/lib/hook/nx64/hook_impl.cpp.
use zeldar.Base.{
  ℕ, zero, suc, ◌+◌, ◌-◌, ◌/◌, ◌%◌, ◌≤◌, ◌≡◌, refl, ap, ◌∙◌, Bool, true, false, not, [], ◌∷◌, arith,
  Bool-cases, add64, sub64, asr64, bit_and, inl, inr, ◌==◌, some, length, length-append, ◌^◌, ◌<◌,
  ◌⊎◌, ◌||◌, leb, llabs, if◌then◌else◌, Option-cases,
}
use zeldar.Base.Masks.{mask_low}
use zeldar.Hook.Context.{
  aarch64_nop, State, outprx, emit, set_current, current_index, is_in_fixing_range,
}
use zeldar.Hook.Fix.Literal.{
  pad_while, literal_kind, copied_literal, near_literal, fix_literal, fix_loadlit, words_at,
  pad_rounds, literal_absolute_addr,
}
use zeldar.Hook.Size.{
  Grows, Grows-trans, Grows-weaken, Grows-if, Grows-refl, emit-Grows, emit_after-Grows,
  set_current-Grows, finish-Grows, set_current_after-Grows, GrowsIfTaken, rewritten-Grows,
}

-- `c` counts the words that the test still asks for, in an output at a multiple of 4.
abbrev pub Counts : (State → Bool) → (State → ℕ) → Type 0
Counts test c =
    (t : State) → t.out_base % 4 ≡ 0 → test t ≡ true → suc (c (emit (aarch64_nop ∷ []) t)) ≡ c t

-- With that many rounds the loop ends on its own test, and adds no more words than that.
pad_while-Counts :
    (n : ℕ) (test : State → Bool) (c : State → ℕ) (s : State)
    → Counts test c
    → s.out_base % 4 ≡ 0
    → c s ≤ n
    → Grows (c s) s (pad_while n test s) × (test (pad_while n test s) ≡ false)
unfolding pad_while
pad_while-Counts zero test c s counts base le = elim (Bool-cases (test s)) [
  | inl h ↦ absurd (omega (arith, counts s base h))
  | inr h ↦ (Grows-refl (c s) s, h)
]
pad_while-Counts (suc n) test c s counts base le = elim (Bool-cases (test s)) [
  | inl h ↦
      let t = emit (aarch64_nop ∷ []) s in
      let less = counts s base h in
      let (grows, ends) = pad_while-Counts n test c t counts base (omega arith) in
      rw (h, pad_while)
        (
          Grows-weaken (1 + c t) (c s) s (pad_while n test t) (omega arith) (
              Grows-trans 1 (c t) s t (pad_while n test t) (emit-Grows (aarch64_nop ∷ []) s) grows),
          ends,
        )
  | inr h ↦ rw (h, pad_while) (Grows-refl (c s) s, h)
]

-- The sizes of a literal, in words.
abbrev pub IsLiteralSize : ℕ → Type 0
IsLiteralSize f = (f ≡ 3) ⊎ (f ≡ 7) ⊎ (f ≡ 15)

pub literal_kind-IsLiteralSize :
    (ins mask f : ℕ) → literal_kind ins ≡ some (mask, f) → IsLiteralSize f
unfolding literal_kind
literal_kind-IsLiteralSize ins mask f h = ground arith

abbrev pub copy_test : ℕ → State → Bool
copy_test f t = not (bit_and (add64 (outprx t) 8) f == 0)

abbrev pub copy_count : ℕ → State → ℕ
copy_count f t = let n = (f + 1) / 4 in (n - (outprx t / 4 + 2) % n) % n

pub copy_test-Counts : (f : ℕ) → IsLiteralSize f → Counts (copy_test f) (copy_count f)
unfolding emit
copy_test-Counts f (inl h) t base more =
    ground (arith, mask_low 2 (add64 (outprx t) 8), length-append t.out (aarch64_nop ∷ []))
copy_test-Counts f (inr (inl h)) t base more =
    ground (arith, mask_low 3 (add64 (outprx t) 8), length-append t.out (aarch64_nop ∷ []))
copy_test-Counts f (inr (inr h)) t base more =
    ground (arith, mask_low 4 (add64 (outprx t) 8), length-append t.out (aarch64_nop ∷ []))

abbrev pub offset : ℕ → State → ℕ
offset a t = asr64 (sub64 a (outprx t)) 2

abbrev pub near_test : ℕ → ℕ → State → Bool
near_test f a t = not (bit_and (offset a t) (f / 4) == 0)

abbrev pub near_count : ℕ → ℕ → State → ℕ
near_count f a t = offset a t % ((f + 1) / 4)

near_test-Counts :
    (f a : ℕ) → a < 2 ^ 64 → IsLiteralSize f → Counts (near_test f a) (near_count f a)
unfolding emit
near_test-Counts f a le (inl h) t base more =
    ground (arith, mask_low 0 (offset a t), length-append t.out (aarch64_nop ∷ []))
near_test-Counts f a le (inr (inl h)) t base more =
    ground (arith, mask_low 1 (offset a t), length-append t.out (aarch64_nop ∷ []))
near_test-Counts f a le (inr (inr h)) t base more =
    ground (arith, mask_low 2 (offset a t), length-append t.out (aarch64_nop ∷ []))

pub copy_count-bound : (f : ℕ) (s : State) → IsLiteralSize f → copy_count f s + (f + 1) / 4 ≤ 7
copy_count-bound f s (inl h) = ground arith
copy_count-bound f s (inr (inl h)) = ground arith
copy_count-bound f s (inr (inr h)) = ground arith

near_count-bound : (f a : ℕ) (s : State) → IsLiteralSize f → near_count f a s ≤ 3
near_count-bound f a s (inl h) = ground arith
near_count-bound f a s (inr (inl h)) = ground arith
near_count-bound f a s (inr (inr h)) = ground arith

-- The loop that pads for a copied literal ends on its own test, that is, with the literal
-- aligned to its size, and adds no more words than the count says, in any output at a multiple
-- of 4.
pad_while-copy_test :
    (f : ℕ) (s : State)
    → IsLiteralSize f
    → s.out_base % 4 ≡ 0
    → Grows (copy_count f s) s (pad_while pad_rounds (copy_test f) s)
      × (copy_test f (pad_while pad_rounds (copy_test f) s) ≡ false)
pad_while-copy_test f s size base =
    pad_while-Counts pad_rounds (copy_test f) (copy_count f) s (copy_test-Counts f size) base
      (omega (arith, copy_count-bound f s size))

-- The loop that pads for a literal in reach ends on its own test, that is, with the distance a
-- multiple of the literal's size, and adds no more words than the count says.
pad_while-near_test :
    (f a : ℕ) (s : State)
    → a < 2 ^ 64
    → IsLiteralSize f
    → s.out_base % 4 ≡ 0
    → Grows (near_count f a s) s (pad_while pad_rounds (near_test f a) s)
      × (near_test f a (pad_while pad_rounds (near_test f a) s) ≡ false)
pad_while-near_test f a s le size base =
    pad_while-Counts pad_rounds (near_test f a) (near_count f a) s (near_test-Counts f a le size)
      base (omega (arith, near_count-bound f a s size))

module _ (load : ℕ → ℕ) where
  length-words_at : (n a : ℕ) → length (words_at load n a) ≡ n
  unfolding words_at
  length-words_at zero a = refl
  length-words_at (suc n) a = ap suc (length-words_at n (add64 a 4))

  copied_literal-Grows :
      (mask f idx a : ℕ) (s : State)
      → IsLiteralSize f
      → s.out_base % 4 ≡ 0
      → Grows 9 s (copied_literal load mask f idx a s)
  unfolding copied_literal
  copied_literal-Grows mask f idx a s size base =
      let t = pad_while pad_rounds (copy_test f) s in
      let n = copy_count f s in
      emit_after-Grows n 9 _ s (set_current idx t)
        (omega (arith, copy_count-bound f s size, length-words_at ((f + 1) / 4) a))
        (set_current_after-Grows n idx s t (pad_while-copy_test f s size base).0)

  near_literal-Grows :
      (mask f idx a : ℕ) (s : State)
      → a < 2 ^ 64
      → IsLiteralSize f
      → s.out_base % 4 ≡ 0
      → Grows 9 s (near_literal load mask f idx a s)
  unfolding near_literal
  near_literal-Grows mask f idx a s le size base =
      let t = pad_while pad_rounds (near_test f a) s in
      let n = near_count f a s in
      emit_after-Grows n 9 _ s (set_current idx t) (omega (arith, near_count-bound f a s size))
        (set_current_after-Grows n idx s t (pad_while-near_test f a s le size base).0)

  fix_literal-Grows :
      (mask f : ℕ) (s : State)
      → IsLiteralSize f
      → s.out_base % 4 ≡ 0
      → Grows 9 s (fix_literal load mask f s)
  unfolding fix_literal
  fix_literal-Grows mask f s size base =
      let idx = current_index s in
      let s1 = set_current idx s in
      let a = literal_absolute_addr load s in
      let base' = ap (λ b. b % 4) (set_current-Grows idx s).1 ∙ base in
      let t = copied_literal load mask f idx a s1 in
      let u = near_literal load mask f idx a s1 in
      let far =
        is_in_fixing_range s1.ctx a
        || leb (0x00ffffe0 / 2 ^ 6) (llabs (asr64 (sub64 a (outprx s1)) 2) + (f + 1 - 4) / 4) in
      rewritten-Grows idx s (if far then t else u) (
        Grows-if 9 s1 t u far (copied_literal-Grows mask f idx a s1 size base')
          (near_literal-Grows mask f idx a s1 (omega arith) size base'))

  pub fix_loadlit-Grows : (s : State) → s.out_base % 4 ≡ 0 → GrowsIfTaken s (fix_loadlit load s)
  unfolding fix_loadlit
  fix_loadlit-Grows s base =
      let idx = current_index s in
      elim (Bool-cases (bit_and (load s.inp) 0xff000000 == 0xd8000000)) [
        | inl h ↦ rw h (
            finish-Grows 9 idx s (set_current idx s)
              (set_current_after-Grows 9 idx s s (Grows-refl 9 s)))
        | inr h ↦ elim (Option-cases (literal_kind (load s.inp))) [
          | inl k ↦ rw (h, k, GrowsIfTaken) tt
          | inr ((mask, f), k) ↦
              rw (h, k, GrowsIfTaken)
                (fix_literal-Grows mask f s (literal_kind-IsLiteralSize (load s.inp) mask f k) base)
        ]
      ]
