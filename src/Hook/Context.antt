-- ===== src/Hook/Context.antt =====
-- `context` of src/lib/hook/nx64/hook_impl.cpp, and the state that `__fix_instructions` moves on.
-- Addresses are patterns of 64 bits. The words written so far stand in `out`, and the two views of
-- the output, `outprw` and `outprx`, advance together: both are the length of `out`, as addresses
-- from `rw_base` and `out_base`. A pointer to an output word is its index in `out`.
use zeldar.Base.{
  ℕ, ◌*◌, ◌/◌, ◌%◌, ◌^◌, Bool, not, ◌&&◌, Option, none, some, List, [], ◌∷◌, ◌++◌, bit_and, bit_or,
  length, get_or, set, replicate, u32, add64, sub64, slt64, asr32,
}

-- Hooking constants.
abbrev pub max_instructions : ℕ
max_instructions = 5

abbrev pub trampoline_size : ℕ
trampoline_size = max_instructions * 10

abbrev pub max_references : ℕ
max_references = max_instructions * 2

abbrev pub aarch64_nop : ℕ
aarch64_nop = 0xd503201f

-- `fix_info`; `none` is the null `bprw` of a free entry.
pub record FixInfo : Type 0 where
  pub bprw : Option ℕ
  pub bprx : ℕ
  pub ls : ℕ
  pub ad : ℕ

abbrev pub free_info : FixInfo
free_info = record { bprw = none; bprx = 0; ls = 0; ad = 0 }

-- `insns_info`.
pub record InsnsInfo : Type 0 where
  pub ins : ℕ
  pub fmap : List FixInfo

abbrev pub free_insns : InsnsInfo
free_insns = record { ins = 0; fmap = replicate max_references free_info }

pub record Context : Type 0 where
  pub basep : ℕ
  pub endp : ℕ
  pub dat : List InsnsInfo

pub record State : Type 0 where
  -- `inprx`
  pub inp : ℕ
  pub out_base : ℕ
  pub rw_base : ℕ
  pub out : List ℕ
  pub ctx : Context

-- `*outprx` and `*outprw`.
abbrev pub outprx : State → ℕ
outprx s = add64 s.out_base (4 * length s.out)

abbrev pub outprw : State → ℕ
outprw s = add64 s.rw_base (4 * length s.out)

-- Writing words at `*outprw` and moving both views past them.
unfoldable pub emit : List ℕ → State → State
emit words s = record s { out = s.out ++ words }

unfoldable pub is_in_fixing_range : Context → ℕ → Bool
is_in_fixing_range c absolute_addr = not (slt64 absolute_addr c.basep) && slt64 absolute_addr c.endp

-- The difference is divided as an unsigned number.
unfoldable pub get_ref_ins_index : Context → ℕ → ℕ
get_ref_ins_index c absolute_addr = sub64 absolute_addr c.basep / 4

unfoldable pub dat_at : Context → ℕ → InsnsInfo
dat_at c idx = get_or c.dat idx free_insns

unfoldable pub reset_current_ins : ℕ → ℕ → Context → Context
unfolding dat_at
reset_current_ins idx outp c = record c {
  dat = set c.dat idx (record { ins = outp; fmap = (dat_at c idx).fmap });
}

-- `get_and_set_current_index(inp, outp)`: the index, and the context after it.
unfoldable pub current_index : State → ℕ
unfolding get_ref_ins_index
current_index s = get_ref_ins_index s.ctx s.inp

-- The `insp` of instruction `idx` becomes the place of the next output word.
unfoldable pub set_current : ℕ → State → State
unfolding reset_current_ins
set_current idx s = record s { ctx = reset_current_ins idx (outprx s) s.ctx }

-- The first free entry takes the reference; with none free it is dropped.
unfoldable pub insert_info : FixInfo → List FixInfo → List FixInfo
insert_info new [] = []
insert_info new (f ∷ fs) = elim f.bprw [ none ↦ new ∷ fs | some _ ↦ f ∷ insert_info new fs ]

unfoldable pub insert_fix_map : ℕ → ℕ → ℕ → ℕ → ℕ → Context → Context
unfolding insert_info dat_at
insert_fix_map idx bprw bprx ls ad c =
    let new : FixInfo = record { bprw = some bprw; bprx = bprx; ls = ls; ad = ad } in
    let old = dat_at c idx in
    record c { dat = set c.dat idx (record { ins = old.ins; fmap = insert_info new old.fmap }) }

-- The reference of the word at the entry, to the place `ins`, in the bits that `ls` and `ad` give.
unfoldable pub fixed_word : ℕ → ℕ → FixInfo → ℕ
fixed_word ins word f =
    bit_or word (bit_and (u32 (asr32 (u32 (sub64 ins f.bprx)) 2 * 2 ^ f.ls)) f.ad)

-- The loop of `process_fix_map`: the output and the entries after it.
unfoldable pub process_infos : ℕ → List FixInfo → List ℕ → List ℕ
unfolding fixed_word
process_infos ins [] out = out
process_infos ins (f ∷ fs) out = elim f.bprw [
  | none ↦ out
  | some i ↦ process_infos ins fs (set out i (fixed_word ins (get_or out i 0) f))
]

unfoldable pub clear_infos : List FixInfo → List FixInfo
clear_infos [] = []
clear_infos (f ∷ fs) = elim f.bprw [
  | none ↦ f ∷ fs
  | some i ↦ record f { bprw = none; bprx = 0 } ∷ clear_infos fs
]

unfoldable pub process_fix_map : ℕ → State → State
unfolding process_infos clear_infos dat_at
process_fix_map idx s =
    let info = dat_at s.ctx idx in
    let cleared : InsnsInfo = record { ins = info.ins; fmap = clear_infos info.fmap } in
    record s {
      out = process_infos info.ins info.fmap s.out;
      ctx = record { basep = s.ctx.basep; endp = s.ctx.endp; dat = set s.ctx.dat idx cleared };
    }

-- The end of every `__fix_` function: the next input, then the references that waited for this
-- instruction.
unfoldable pub finish : ℕ → State → State
unfolding process_fix_map
finish idx s = process_fix_map idx (record s { inp = add64 s.inp 4 })

-- A 64-bit value as the two words that `memcpy` writes.
abbrev pub words_of : ℕ → List ℕ
words_of a = a % 2 ^ 32 ∷ a / 2 ^ 32 ∷ []
