-- ===== src/Hook/Routine/Hooked.antt =====
-- What code does that was hooked by `HookInline` of src/lib/hook/nx64/inline_impl.cpp.
use zeldar.Base.{
  ℕ, ◌+◌, ◌-◌, ◌^◌, ◌≤◌, ◌<◌, ◌≡◌, ◌⊎◌, inl, inr, refl, sym, ap, ◌∙◌, arith, true, Bool-cases,
  Option, none, leb, add64, sub64, Outcome, ok, aborted, assertion, fault, out_of_fuel, ◌>>=◌,
}
use mathlib.Core.Path.{subst}
use zeldar.Virtmem.{Virtmem}
use zeldar.Hook.Install.{hook, Hooked, Trampoline, Pager}
use zeldar.Hook.Encoded.{IsNear}
use zeldar.Hook.Inline.{
  Inlined, hook_inline, entry_rx, entry_words, trampoline_rx, inline_pool_count,
}
use zeldar.Hook.Entries.{IsEntry, entry_words-IsEntry}
use zeldar.Hook.Machine.{Cpu, Inst, Holds, HoldsWords}
use zeldar.Hook.Machine.Runs.{Reaches}
use zeldar.Hook.Routine.{inline_hook_impl}
use zeldar.Hook.Routine.Context.{IsSeen, IsResumed, IsCallback}
use zeldar.Hook.Routine.Called.{entry-IsResumed}

ok_eq : {a b : Inlined} → ok a ≡ ok b → a ≡ b
ok_eq e = cc

-- The entry that `HookInline` has filled.
hook_inline-entry :
    (k : Pager) (v : Virtmem) (load : ℕ → ℕ)
    (ro rw_view next impl pool entry_index symbol callback : ℕ) (r : Inlined)
    → hook_inline k v load ro rw_view next impl pool entry_index symbol callback ≡ ok r
    → (r.entry.cb_entry ≡ entry_words impl r.entry_cb (trampoline_rx r.trampoline))
      × (r.entry.callback ≡ callback)
      × (r.entry_cb ≡ entry_rx pool entry_index)
unfolding hook_inline
hook_inline-entry k v load ro rw_view next impl pool entry_index symbol callback r h =
    elim (Bool-cases (leb inline_pool_count entry_index)) [
      | inl full ↦ absurd (let e = rw full at h in cc)
      | inr left ↦
          filled (hook k v load ro rw_view next symbol (entry_rx pool entry_index) true)
            (rw left at h)
    ]
  where
    filled :
        (o : Outcome (Hooked × Option Trampoline × ℕ × Virtmem))
        → (o >>= λ (hooked, t, next', v'). ok (record {
          hooked = hooked;
          trampoline = t;
          entry_cb = entry_rx pool entry_index;
          entry = record {
            cb_entry = entry_words impl (entry_rx pool entry_index) (trampoline_rx t);
            callback = callback;
          };
          next = next';
          entry_index = entry_index + 1;
          virtmem = v';
        }))
          ≡ ok r
        → (r.entry.cb_entry ≡ entry_words impl r.entry_cb (trampoline_rx r.trampoline))
          × (r.entry.callback ≡ callback)
          × (r.entry_cb ≡ entry_rx pool entry_index)
    filled (ok (hooked, t, next', v')) e =
        let same = ok_eq e in
        subst
          (λ (q : Inlined).
            (q.entry.cb_entry ≡ entry_words impl q.entry_cb (trampoline_rx q.trampoline))
            × (q.entry.callback ≡ callback)
            × (q.entry_cb ≡ entry_rx pool entry_index))
          same (refl, refl, refl)
    filled assertion e = absurd (cc)
    filled fault e = absurd (cc)
    filled out_of_fuel e = absurd (cc)
    filled (aborted a) e = absurd (cc)

-- Once an inline hook has been set, with the common routine and the trampoline near its entry: code
-- that arrives at the entry gets to the callback in a finite number of steps, with a context that
-- holds X0 to X30; and when the callback, which keeps to the procedure call standard, has returned,
-- the code gets to the second word of the trampoline in a finite number of steps, with the registers
-- that the context then holds, the stack pointer of the hook and the memory that the callback left.
pub hook_inline-IsResumed :
    (k : Pager) (v : Virtmem) (load : ℕ → ℕ)
    (ro rw_view next impl pool entry_index symbol callback : ℕ) (r : Inlined)
    → hook_inline k v load ro rw_view next impl pool entry_index symbol callback ≡ ok r
    → impl < 2 ^ 64
    → trampoline_rx r.trampoline < 2 ^ 64
    → IsNear (sub64 impl (add64 r.entry_cb 4))
    → IsNear (sub64 (trampoline_rx r.trampoline) (add64 r.entry_cb 8))
    → (fetch : ℕ → Option Inst) (outside : Cpu → Cpu) (c : Cpu) → Holds fetch impl inline_hook_impl
    → HoldsWords fetch r.entry_cb r.entry.cb_entry
    → fetch callback ≡ none
    → IsCallback outside callback
    → c.pc ≡ r.entry_cb
    → c.memory (add64 r.entry_cb 16) ≡ callback
    → 0x100 ≤ c.sp
    → c.sp < 2 ^ 64
    → (add64 r.entry_cb 16 < c.sp - 0x100) ⊎ (c.sp ≤ add64 r.entry_cb 16)
    → (seen : Cpu) × (final : Cpu) × Reaches fetch outside c seen
      × IsSeen callback c seen
      × Reaches fetch outside seen final
      × IsResumed (add64 (trampoline_rx r.trampoline) 4) c (outside seen) final
unfolding IsEntry
hook_inline-IsResumed k v load ro rw_view next impl pool entry_index symbol callback r returned
      impl_lt trampoline_lt near near' fetch outside c routine words unknown returns at_entry stored
      room below apart =
    let (is_words, is_callback, is_rx) =
      hook_inline-entry k v load ro rw_view next impl pool entry_index symbol callback r returned in
    let entry_lt : r.entry_cb < 2 ^ 64 = omega (arith, is_rx) in
    let is_entry =
      entry_words-IsEntry r.entry_cb impl (trampoline_rx r.trampoline) callback impl_lt
        trampoline_lt entry_lt near near' in
    let (seen, final, arrives, is_seen, goes_on, resumed) =
      entry-IsResumed fetch outside impl r.entry_cb (add64 (trampoline_rx r.trampoline) 4) r.entry c
        routine words (filled_entry is_words is_entry) at_entry room below
        (stored ∙ sym is_callback) apart (ap fetch is_callback ∙ unknown)
        (λ d at_callback. returns d (at_callback ∙ is_callback)) in
    (seen, final, arrives, subst (λ (a : ℕ). IsSeen a c seen) is_callback is_seen, goes_on, resumed)
  where
    filled_entry :
        r.entry.cb_entry ≡ entry_words impl r.entry_cb (trampoline_rx r.trampoline)
        → IsEntry r.entry_cb impl (add64 (trampoline_rx r.trampoline) 4) (record {
          cb_entry = entry_words impl r.entry_cb (trampoline_rx r.trampoline);
          callback = callback;
        })
        → IsEntry r.entry_cb impl (add64 (trampoline_rx r.trampoline) 4) r.entry
    filled_entry is_words (call, branch, is_entry_words, calls, leaves) =
        (call, branch, is_words ∙ is_entry_words, calls, leaves)
