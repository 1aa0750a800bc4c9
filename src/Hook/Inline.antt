-- ===== src/Hook/Inline.antt =====
-- The inline hooks of src/lib/hook/nx64/inline_impl.cpp: a hook goes to an entry of a pool, which
-- calls the common routine of inline_asm.s and then continues at the trampoline.
use zeldar.Base.{
  ℕ, ◌+◌, ◌*◌, ◌/◌, ◌-◌, ◌^◌, Option, none, some, List, [], ◌∷◌, true, leb, if◌then◌else◌, add64,
  sub64, u32, Outcome, ok, aborted, ◌>>=◌,
}
use zeldar.Armv8.Register.{lr, sp}
use zeldar.Armv8.Encode.Branches.{branch, branch_link}
use zeldar.Armv8.Encode.LoadStore.{stur_unscaled_immediate, ldur_unscaled_immediate}
use zeldar.Virtmem.{Virtmem}
use zeldar.Hook.Install.{Pager, Trampoline, Hooked, hook, trampoline_alloc_fail}

-- `Entry`: four instructions and the callback behind them.
pub record Entry : Type 0 where
  pub cb_entry : List ℕ
  pub callback : ℕ

abbrev pub entry_size : ℕ
entry_size = 4 * 4 + 8

-- `setting::InlinePoolSize`.
abbrev pub inline_pool_size : ℕ
inline_pool_size = 0x1000

abbrev pub inline_pool_count : ℕ
inline_pool_count = inline_pool_size / entry_size

-- The address of an entry in the executable view of the pool, which is that of its first instruction.
abbrev pub entry_rx : ℕ → ℕ → ℕ
entry_rx pool entry_index = add64 pool (entry_index * entry_size)

-- The four instructions; an offset is cut to the 32 bits of the branch's constructor.
unfoldable pub entry_words : (impl entry_cb trampoline : ℕ) → List ℕ
entry_words impl entry_cb trampoline =
    stur_unscaled_immediate lr sp (2 ^ 32 - 0x10)
    ∷ branch_link (u32 (sub64 impl (add64 entry_cb 4)))
    ∷ ldur_unscaled_immediate lr sp (2 ^ 32 - 0x10)
    ∷ branch (u32 (sub64 trampoline (add64 entry_cb 8)))
    ∷ []

-- What an inline hook leaves behind: the hooked code with the trampoline, the entry that was
-- filled, the two indices, and the reservations.
pub record Inlined : Type 0 where
  pub hooked : Hooked
  pub trampoline : Option Trampoline
  pub entry_cb : ℕ
  pub entry : Entry
  pub next : ℕ
  pub entry_index : ℕ
  pub virtmem : Virtmem

-- The address that `Hook` returns.
abbrev pub trampoline_rx : Option Trampoline → ℕ
trampoline_rx none = 0
trampoline_rx (some t) = t.rx

-- `HookInline`. `k`, `v`, `load`, `ro`, `rw_view` and `next` are those of `Hook`; `pool` is the executable view
-- of the entries.
unfoldable pub hook_inline :
    Pager
    → Virtmem
    → (ℕ → ℕ)
    → (ro rw_view next : ℕ) → (impl pool entry_index : ℕ) → (symbol callback : ℕ) → Outcome Inlined
unfolding hook entry_words
hook_inline k v load ro rw_view next impl pool entry_index symbol callback =
    if leb inline_pool_count entry_index
    then aborted trampoline_alloc_fail
    else let entry_cb = entry_rx pool entry_index in
      hook k v load ro rw_view next symbol entry_cb true >>= λ (hooked, t, next', v'). ok (record {
        hooked = hooked;
        trampoline = t;
        entry_cb = entry_cb;
        entry = record {
          cb_entry = entry_words impl entry_cb (trampoline_rx t);
          callback = callback;
        };
        next = next';
        entry_index = entry_index + 1;
        virtmem = v';
      })
