-- ===== src/Hook/Fix/Literal.antt =====
-- `__fix_loadlit` of src/lib/hook/nx64/hook_impl.cpp. A literal that is out of reach, or among the
-- instructions that are rewritten, is copied behind its load.
use zeldar.Base.{
  ℕ, zero, suc, ◌+◌, ◌-◌, ◌*◌, ◌/◌, ◌^◌, Bool, true, false, not, ◌||◌, Option, none, some, List, [],
  ◌∷◌, bit_and, bit_or, leb, ◌==◌, if◌then◌else◌, u32, not32, add64, sub64, asr32, asr64, llabs,
}
use zeldar.Hook.Context.{
  aarch64_nop, State, outprx, emit, is_in_fixing_range, current_index, set_current, finish,
}

-- `while (test) { *outprw++ = Aarch64Nop; outprx++; }`
unfoldable pub pad_while : ℕ → (State → Bool) → State → State
unfolding emit
pad_while zero test s = s
pad_while (suc fuel) test s = elim (test s) [
  | true ↦ pad_while fuel test (emit (aarch64_nop ∷ []) s)
  | false ↦ s
]

-- At most three words bring an address to a multiple of 16 bytes.
abbrev pub pad_rounds : ℕ
pad_rounds = 4

-- The kind of a literal load: the mask of its offset, and `faligned`, its size in bytes less one.
unfoldable pub literal_kind : ℕ → Option (ℕ × ℕ)
literal_kind ins =
    let wide : ℕ = if bit_and ins 0x40000000 == 0 then 3 else 7 in
    let vector : ℕ =
      if not (wide == 7) then (if bit_and ins 0x80000000 == 0 then 3 else 15) else wide in
    if bit_and ins 0xbf000000 == 0x18000000
    then some (0xbf000000, wide)
    else if bit_and ins 0x3f000000 == 0x1c000000
    then some (0x3f000000, vector)
    else if bit_and ins 0xff000000 == 0x98000000
    then some (0xff000000, 7)
    else none

module _ (load : ℕ → ℕ) where
  -- The sign-extended offset is masked as an unsigned word, and so added without its sign.
  abbrev pub literal_absolute_addr : State → ℕ
  literal_absolute_addr s = add64 s.inp (bit_and (asr32 (u32 (load s.inp * 2 ^ 8)) 11) (not32 3))

  -- `n` words that `memcpy` reads at an address.
  unfoldable pub words_at : ℕ → ℕ → List ℕ
  words_at zero a = []
  words_at (suc n) a = load a ∷ words_at n (add64 a 4)

  unfoldable pub copied_literal : ℕ → ℕ → ℕ → ℕ → State → State
  unfolding pad_while words_at emit set_current
  copied_literal mask faligned idx absolute_addr s =
      let padded = pad_while pad_rounds (λ t. not (bit_and (add64 (outprx t) 8) faligned == 0)) s in
      let ns = (faligned + 1) / 4 in
      let ldr = bit_or (bit_and (2 * 2 ^ 5) (not32 mask)) (bit_and (load s.inp) 0xff00001f) in
      emit (ldr ∷ (0x14000001 + ns) ∷ words_at ns absolute_addr) (set_current idx padded)

  unfoldable pub near_literal : ℕ → ℕ → ℕ → ℕ → State → State
  unfolding pad_while emit set_current
  near_literal mask faligned idx absolute_addr s =
      let offset : State → ℕ = λ t. asr64 (sub64 absolute_addr (outprx t)) 2 in
      let padded = pad_while pad_rounds (λ t. not (bit_and (offset t) (faligned / 4) == 0)) s in
      let ldr =
        bit_or (bit_and (u32 (offset padded * 2 ^ 5)) (not32 mask))
          (bit_and (load s.inp) 0xff00001f) in
      emit (ldr ∷ []) (set_current idx padded)

  unfoldable pub fix_literal : ℕ → ℕ → State → State
  unfolding current_index set_current is_in_fixing_range copied_literal near_literal finish
  fix_literal mask faligned s =
      let idx = current_index s in
      let absolute_addr = literal_absolute_addr s in
      let s1 = set_current idx s in
      let new_pc_offset = asr64 (sub64 absolute_addr (outprx s1)) 2 in
      let special = is_in_fixing_range s1.ctx absolute_addr in
      let far = leb (0x00ffffe0 / 2 ^ 6) (llabs new_pc_offset + (faligned + 1 - 4) / 4) in
      finish idx (
        if special || far
        then copied_literal mask faligned idx absolute_addr s1
        else near_literal mask faligned idx absolute_addr s1)

  -- A prefetch is skipped: nothing is written for it.
  unfoldable pub fix_loadlit : State → Option State
  unfolding literal_kind current_index set_current fix_literal finish
  fix_loadlit s =
      let ins = load s.inp in
      let idx = current_index s in
      if bit_and ins 0xff000000 == 0xd8000000
      then some (finish idx (set_current idx s))
      else elim (literal_kind ins) [
        | none ↦ none
        | some (mask, faligned) ↦ some (fix_literal mask faligned s)
      ]
