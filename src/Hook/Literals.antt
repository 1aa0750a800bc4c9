-- ===== src/Hook/Literals.antt =====
-- What `__fix_loadlit` of src/lib/hook/nx64/hook_impl.cpp writes for a literal that it copies.
use zeldar.Base.{
  ℕ, zero, suc, ◌+◌, ◌*◌, ◌/◌, ◌%◌, ◌^◌, ◌≤◌, ◌<◌, ◌≡◌, ◌⊎◌, inl, inr, refl, sym, ap, ◌∙◌, arith,
  Bool, false, Bool-cases, [], ◌∷◌, ◌++◌, replicate, add64, some, bit_and, bit_or, not32,
}
use mathlib.Core.List.{append-nil, append_assoc}
use zeldar.Base.Masks.{mask_low}
use zeldar.Hook.Context.{aarch64_nop, State, outprx, emit, set_current}
use zeldar.Hook.Fix.Literal.{literal_kind, pad_while, copied_literal, words_at, pad_rounds}
use zeldar.Armv8.Isa.{field}
use zeldar.Hook.CondWords.{merged}
use zeldar.Hook.Size.Padding.{
  literal_kind-IsLiteralSize, Counts, IsLiteralSize, copy_test, copy_count, copy_test-Counts,
  copy_count-bound,
}

-- The words that the loop adds are the NOPs that the test asks for.
out-pad_while :
    (n : ℕ) (test : State → Bool) (c : State → ℕ) (s : State)
    → Counts test c
    → ((t : State) → t.out_base % 4 ≡ 0 → test t ≡ false → c t ≡ 0)
    → s.out_base % 4 ≡ 0
    → c s ≤ n
    → (pad_while n test s).out ≡ s.out ++ replicate (c s) aarch64_nop
unfolding pad_while
out-pad_while zero test c s counts ends base le = elim (Bool-cases (test s)) [
  | inl h ↦ absurd (omega (arith, counts s base h))
  | inr h ↦ rw (ends s base h) (sym (append-nil s.out))
]
out-pad_while (suc n) test c s counts ends base le = elim (Bool-cases (test s)) [
  | inl h ↦
      let t = emit (aarch64_nop ∷ []) s in
      let less = counts s base h in
      let rest = out-pad_while n test c t counts ends base (omega arith) in
      rw (h, pad_while)
        (rest
          ∙ append_assoc s.out (aarch64_nop ∷ []) (replicate (c t) aarch64_nop)
          ∙ ap (λ m. s.out ++ replicate m aarch64_nop) less)
  | inr h ↦ rw (h, pad_while, ends s base h) (sym (append-nil s.out))
]

-- Where the test does not ask for more, nothing is counted.
copy_count-ends :
    (f : ℕ) (t : State)
    → IsLiteralSize f
    → t.out_base % 4 ≡ 0
    → copy_test f t ≡ false
    → copy_count f t ≡ 0
copy_count-ends f t (inl h) base ends = ground (arith, mask_low 2 (add64 (outprx t) 8))
copy_count-ends f t (inr (inl h)) base ends = ground (arith, mask_low 3 (add64 (outprx t) 8))
copy_count-ends f t (inr (inr h)) base ends = ground (arith, mask_low 4 (add64 (outprx t) 8))

copy_count-aligned :
    (f : ℕ) (s : State)
    → IsLiteralSize f
    → s.out_base % 4 ≡ 0
    → add64 (outprx s) (4 * copy_count f s + 8) % (f + 1) ≡ 0
copy_count-aligned f s (inl h) base = ground arith
copy_count-aligned f s (inr (inl h)) base = ground arith
copy_count-aligned f s (inr (inr h)) base = ground arith

-- The load keeps its opcode and its register.
literal_mask :
    (ins mask f : ℕ)
    → literal_kind ins ≡ some (mask, f)
    → (mask ≡ 0xbf000000) ⊎ (mask ≡ 0x3f000000) ⊎ (mask ≡ 0xff000000)
unfolding literal_kind
literal_mask ins mask f h = ground arith

load_ahead :
    (ins mask : ℕ)
    → ins < 2 ^ 32
    → (mask ≡ 0xbf000000) ⊎ (mask ≡ 0x3f000000) ⊎ (mask ≡ 0xff000000)
    → bit_or (bit_and (2 * 2 ^ 5) (not32 mask)) (bit_and ins 0xff00001f)
      ≡ field 24 8 ins * 2 ^ 24 + 2 * 2 ^ 5 + field 0 5 ins
load_ahead ins mask h kind =
    let same : bit_and (2 * 2 ^ 5) (not32 mask) ≡ bit_and (2 * 2 ^ 5) 0x00ffffe0 =
      offset_bits mask kind in
    rw same (merged (2 * 2 ^ 5) ins h ∙ refl)
  where
    offset_bits :
        (mask : ℕ)
        → (mask ≡ 0xbf000000) ⊎ (mask ≡ 0x3f000000) ⊎ (mask ≡ 0xff000000)
        → bit_and (2 * 2 ^ 5) (not32 mask) ≡ bit_and (2 * 2 ^ 5) 0x00ffffe0
    offset_bits mask (inl e) = rw e refl
    offset_bits mask (inr (inl e)) = rw e refl
    offset_bits mask (inr (inr e)) = rw e refl

copy_count-few : (f : ℕ) (s : State) → IsLiteralSize f → copy_count f s < (f + 1) / 4
copy_count-few f s (inl h) = ground arith
copy_count-few f s (inr (inl h)) = ground arith
copy_count-few f s (inr (inr h)) = ground arith

-- For a literal that is copied, in an output at a multiple of 4, the output goes on with fewer NOPs
-- than the literal has words, the load with its opcode and register and an offset of 8 bytes, a branch
-- over the literal, and the words of the literal. These are 8 bytes behind the load, at a multiple of
-- their size.
pub copied_literal-aligned :
    (load : ℕ → ℕ) (mask f idx a : ℕ) (s : State)
    → literal_kind (load s.inp) ≡ some (mask, f)
    → load s.inp < 2 ^ 32
    → s.out_base % 4 ≡ 0
    → (n : ℕ) × ((copied_literal load mask f idx a s).out
        ≡ (s.out ++ replicate n aarch64_nop)
          ++ (field 24 8 (load s.inp) * 2 ^ 24 + 2 * 2 ^ 5 + field 0 5 (load s.inp))
            ∷ (0x14000001 + (f + 1) / 4)
            ∷ words_at load ((f + 1) / 4) a)
      × (n < (f + 1) / 4)
      × (add64 (outprx s) (4 * n + 8) % (f + 1) ≡ 0)
unfolding copied_literal emit set_current
copied_literal-aligned load mask f idx a s kind word base =
    let size = literal_kind-IsLiteralSize (load s.inp) mask f kind in
    let padded =
      out-pad_while pad_rounds (copy_test f) (copy_count f) s (copy_test-Counts f size)
        (λ t base' ends. copy_count-ends f t size base' ends) base
        (omega (arith, copy_count-bound f s size)) in
    let ahead = load_ahead (load s.inp) mask word (literal_mask (load s.inp) mask f kind) in
    (
      copy_count f s,
      rw (padded, ahead) refl,
      copy_count-few f s size,
      copy_count-aligned f s size base,
    )
