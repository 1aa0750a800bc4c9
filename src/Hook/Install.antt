-- ===== src/Hook/Install.antt =====
-- The trampolines' allocation and the patch itself, src/lib/hook/nx64/hook_impl.cpp. The code that
-- is hooked is the function `load` from addresses to words; a hook returns the function after it.
use zeldar.Base.{
  ℕ, ◌+◌, ◌*◌, ◌/◌, ◌%◌, ◌^◌, Bool, Option, none, some, List, [], ◌∷◌, bit_and, bit_or, ltb, leb,
  ◌==◌, not, if◌then◌else◌, add64, sub64, asr64, llabs, Outcome, ok, aborted, ◌>>=◌, ◌>>◌,
  exl_assert, fault,
}
use zeldar.Virtmem.{Reply, MemoryInfo, Virtmem}
use zeldar.RwPages.{Claim, get_aligned_rw, get_aligned_size}
use zeldar.RwPages.Ranges.{create_rw_pages, destroy_rw_pages}
use zeldar.Hook.Context.{aarch64_nop, trampoline_size, words_of}
use zeldar.Hook.Fix.Loop.{fix_instructions}

-- `setting::JitSize`, and the slots of the pool.
abbrev pub hook_pool_size : ℕ
hook_pool_size = 0x1000

abbrev pub hook_max : ℕ
hook_max = hook_pool_size / (trampoline_size * 4)

-- `result::HookTrampolineAllocFail` and `result::HookFailed`.
abbrev pub trampoline_alloc_fail : ℕ
trampoline_alloc_fail = 252 + 2 * 2 ^ 9

abbrev pub hook_failed : ℕ
hook_failed = 252 + 1 * 2 ^ 9

pub record Trampoline : Type 0 where
  pub rx : ℕ
  pub rw : ℕ

-- `AllocForTrampoline`: the slot with the next index, and the index after the call. `next` is
-- `index + 1`; `ro` and `rw` are the two views of the pool.
unfoldable pub alloc_for_trampoline : ℕ → ℕ → ℕ → Outcome (Trampoline × ℕ)
alloc_for_trampoline ro rw next =
    let slot = next * (trampoline_size * 4) in
    if ltb hook_max next
    then aborted trampoline_alloc_fail
    else ok (record { rx = add64 ro slot; rw = add64 rw slot }, next + 1)

-- Writing words at an address of the code.
unfoldable pub store_words : ℕ → List ℕ → (ℕ → ℕ) → ℕ → ℕ
store_words a [] load = load
store_words a (w ∷ ws) load = store_words (add64 a 4) ws (λ b. if b == a then w else load b)

-- The code after a hook, and what the trampoline received.
pub record Hooked : Type 0 where
  pub code : ℕ → ℕ
  pub trampoline : List ℕ

-- How many words the far patch takes: one more where the address would not be aligned.
unfoldable pub far_count : ℕ → ℕ
far_count symbol = if add64 symbol 8 % 8 == 0 then 4 else 5

unfoldable pub far_patch : ℕ → ℕ → List ℕ
unfolding far_count
far_patch symbol replace =
    let jump = 0x58000051 ∷ 0xd61f0220 ∷ words_of replace in
    if far_count symbol == 5 then aarch64_nop ∷ jump else jump

unfoldable pub near_patch : ℕ → ℕ → List ℕ
near_patch symbol replace =
    bit_or 0x14000000 (bit_and (asr64 (sub64 replace symbol) 2) 0x03ffffff) ∷ []

unfoldable pub is_far : ℕ → ℕ → Bool
is_far symbol replace = leb (0x03ffffff / 2) (llabs (asr64 (sub64 replace symbol) 2))

-- The words for the trampoline, if there is one.
unfoldable pub trampoline_words : (ℕ → ℕ) → ℕ → ℕ → Option Trampoline → Outcome (List ℕ)
unfolding fix_instructions
trampoline_words load symbol count trampoline = elim trampoline [
  | none ↦ ok []
  | some t ↦
      if ltb trampoline_size (count * 10)
      then aborted hook_failed
      else fix_instructions load symbol count t.rw t.rx
]

-- What the `RwPages` of `HookFuncImpl` call: random numbers, the kernel, the address `reserve` that
-- `malloc` gives, and `same`, what `memcmp` gives for the two views of the bytes at an address.
-- `rounds`, `draws` and `fuel` are those of `create_rw_pages`.
pub record Pager : Type 0 where
  pub rng : ℕ → ℕ
  pub query : ℕ → Reply MemoryInfo
  pub map_memory : ℕ → ℕ → ℕ → Reply (Unit {0})
  pub unmap_memory : ℕ → ℕ → ℕ → Reply (Unit {0})
  pub rounds : ℕ
  pub draws : ℕ
  pub fuel : ℕ
  pub reserve : ℕ
  pub same : ℕ → ℕ → ℕ

-- The bytes that `ctrl` is made for.
unfoldable pub ctrl_size : ℕ → ℕ → ℕ
unfolding is_far
ctrl_size symbol replace = if is_far symbol replace then 5 * 4 else 1 * 4

-- The words that are rewritten and patched.
unfoldable pub patch_count : ℕ → ℕ → ℕ
unfolding is_far far_count
patch_count symbol replace = if is_far symbol replace then far_count symbol else 1

-- An access to so many bytes at `GetRw()`, of which those behind the mapped pages are not there.
unfoldable pub in_view : Claim → ℕ → Outcome (Unit {0})
unfolding get_aligned_rw get_aligned_size
in_view c bytes =
    if leb (c.rw_view + bytes) (get_aligned_rw c + get_aligned_size c) then ok tt else fault

-- `HookFuncImpl`, with the reservations after it; `hook_failed` is what `Hook` makes of its `false`.
-- Its `RwPages` map the page of `symbol` a second time, so that a write through them inside that page
-- is a write at `symbol`. They are destroyed on return.
unfoldable pub hook_func_impl :
    Pager
    → Virtmem
    → (ℕ → ℕ)
    → (symbol replace : ℕ) → Option Trampoline
    → Outcome (Hooked × Virtmem)
unfolding is_far ctrl_size patch_count create_rw_pages in_view trampoline_words far_patch near_patch
    store_words destroy_rw_pages
hook_func_impl k v load symbol replace trampoline = do
  let size = ctrl_size symbol replace
  let count = patch_count symbol replace
  let patch = if is_far symbol replace then far_patch symbol replace else near_patch symbol replace
  ctrl ←
      create_rw_pages k.rng k.query k.map_memory k.rounds k.draws k.fuel k.reserve v symbol size
        (k.same symbol size)
  in_view ctrl.pages.claim (4 * count)
  words ← trampoline_words load symbol count trampoline
  (effects, unmapped, v') ←
      destroy_rw_pages k.query k.unmap_memory k.fuel ctrl.pages.claim ctrl.pages.owner k.reserve
        ctrl.virtmem
  ok (record { code = store_words symbol patch load; trampoline = words }, v')

-- `Hook`: the code, the trampoline's words and address, the next index, and the reservations.
unfoldable pub hook :
    Pager
    → Virtmem
    → (ℕ → ℕ)
    → (ro rw next : ℕ) → (symbol callback : ℕ) → (do_trampoline : Bool)
    → Outcome (Hooked × Option Trampoline × ℕ × Virtmem)
unfolding alloc_for_trampoline hook_func_impl
hook k v load ro rw next symbol callback do_trampoline = do
  exl_assert (not (symbol == 0))
  exl_assert (not (callback == 0))
  (t, next') ←
      (if do_trampoline
        then alloc_for_trampoline ro rw next >>= (λ (t, next'). ok (some t, next'))
        else ok (none, next))
  (hooked, v') ← hook_func_impl k v load symbol callback t
  ok (hooked, t, next', v')
