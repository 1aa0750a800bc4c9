-- ===== src/Hook/Entries.antt =====
-- Where an inline hook of src/lib/hook/nx64/inline_impl.cpp goes.
use zeldar.Base.{
  ℕ, ◌+◌, ◌-◌, ◌*◌, ◌%◌, ◌^◌, ◌≤◌, ◌<◌, ◌≡◌, ◌≢◌, refl, ap, ◌∙◌, arith, some, [], ◌∷◌, add64, sub64,
  u32, List, ok,
}
use zeldar.Armv8.Register.{lr, sp}
use zeldar.Armv8.Encode.Branches.{branch, branch_link}
use zeldar.Armv8.Encode.LoadStore.{stur_unscaled_immediate, ldur_unscaled_immediate}
use zeldar.Hook.Fix.Literal.{words_at}
use zeldar.Virtmem.{Virtmem}
use zeldar.Virtmem.Chain.{IsChain}
use zeldar.Hook.Install.{Pager, ctrl_size, Trampoline, hook_max}
use zeldar.Hook.Served.{IsServed}
use zeldar.Hook.Exec.{leaves, calls}
use zeldar.Hook.Jumps.{IsCode}
use zeldar.Hook.Encoded.{IsNear, branch-leaves, branch_link-calls}
use zeldar.Hook.Inline.{Inlined, Entry, entry_rx, entry_words, hook_inline}

-- What an entry at the address `at` does, word by word: it saves LR below the stack, calls the
-- common routine with a link that is 8 bytes before the callback's field, loads LR again, and
-- continues at `continues`.
unfoldable pub IsEntry : (at impl continues : ℕ) → Entry → Type 0
IsEntry at impl continues entry =
    (bl : ℕ) × (b : ℕ) × (entry.cb_entry
      ≡ stur_unscaled_immediate lr sp (2 ^ 32 - 0x10)
        ∷ bl
        ∷ ldur_unscaled_immediate lr sp (2 ^ 32 - 0x10)
        ∷ b
        ∷ [])
    × (calls (add64 at 4) (bl ∷ []) ≡ some (record { target = impl; link = add64 at 8 }))
    × (leaves (add64 at 12) (b ∷ []) ≡ some continues)

pub entry_words-IsEntry :
    (at impl trampoline callback : ℕ)
    → impl < 2 ^ 64
    → trampoline < 2 ^ 64
    → at < 2 ^ 64
    → IsNear (sub64 impl (add64 at 4))
    → IsNear (sub64 trampoline (add64 at 8))
    → IsEntry at impl
        (add64 trampoline 4)
        (record { cb_entry = entry_words impl at trampoline; callback = callback })
unfolding IsEntry entry_words
entry_words-IsEntry at impl trampoline callback h k l near near' =
    let distance = sub64 impl (add64 at 4) in
    let distance' = sub64 trampoline (add64 at 8) in
    let to_impl : add64 (add64 at 4) distance ≡ impl = omega arith in
    let link : add64 (add64 at 4) 4 ≡ add64 at 8 = omega arith in
    let past : add64 (add64 at 12) distance' ≡ add64 trampoline 4 = omega arith in
    (
      branch_link (u32 distance),
      branch (u32 distance'),
      refl,
      branch_link-calls (add64 at 4) distance near ∙ rw (to_impl, link) refl,
      branch-leaves (add64 at 12) distance' near' ∙ ap some past,
    )

-- Where the hooked code, the entry and the trampoline are connected.
unfoldable pub IsInlined : (impl symbol callback entry_cb : ℕ) → Trampoline → Inlined → Type 0
unfolding IsEntry
IsInlined impl symbol callback entry_cb t r =
    (r.entry_cb ≡ entry_cb)
    × (r.trampoline ≡ some t)
    × (r.entry.callback ≡ callback)
    × ((n : ℕ) × (leaves symbol (words_at r.hooked.code n symbol) ≡ some entry_cb))
    × IsEntry entry_cb impl (add64 t.rx 4) r.entry

-- The call of `HookInline` returns with the next entry filled, and the reservations are well linked.
unfoldable pub ReturnsInlined :
    Pager
    → Virtmem
    → (hs : List ℕ) (load : ℕ → ℕ) (ro rw_view next impl pool entry_index symbol callback : ℕ)
    → Type 0
unfolding IsInlined
ReturnsInlined k v hs load ro rw_view next impl pool entry_index symbol callback =
    (r : Inlined) × (hook_inline k v load ro rw_view next impl pool entry_index symbol callback
      ≡ ok r)
    × IsInlined impl symbol callback (entry_rx pool entry_index)
        (record { rx = add64 ro (next * 200); rw = add64 rw_view (next * 200) }) r
    × (r.next ≡ next + 1)
    × (r.entry_index ≡ entry_index + 1)
    × IsChain r.virtmem.nodes 0 r.virtmem.reservations hs

module _ (k : Pager) (v : Virtmem) (hs : List ℕ) (load : ℕ → ℕ) (ro rw_view next : ℕ)
    (impl pool entry_index symbol callback : ℕ)
    (served : IsServed k v hs symbol (ctrl_size symbol (entry_rx pool entry_index)))
    (next_lt : next < hook_max) (aligned : ro % 4 ≡ 0) (symbol_IsCode : IsCode symbol)
    (symbol_ne : symbol ≢ 0) (below : symbol + 0x2020 < 2 ^ 64)
    (one_page : symbol % 0x1000 + ctrl_size symbol (entry_rx pool entry_index) ≤ 0x1000)
    (pool_aligned : pool % 4 ≡ 0) (pool_ne : pool ≢ 0) (pool_room : pool + 0x1000 ≤ 2 ^ 64)
    (impl_lt : impl < 2 ^ 64) where
  abbrev own_entry : ℕ
  own_entry = entry_rx pool entry_index

  abbrev own_trampoline : Trampoline
  own_trampoline = record { rx = add64 ro (next * 200); rw = add64 rw_view (next * 200) }
