-- ===== src/Hook/Routine/Called.antt =====
-- What an inline hook does when the hooked code runs: the entry, the routine of
-- src/lib/hook/nx64/inline_asm.s and the callback, one after the other.
use zeldar.Base.{
  ℕ, ◌+◌, ◌-◌, ◌*◌, ◌^◌, ◌≤◌, ◌<◌, ◌≡◌, ◌≢◌, ◌⊎◌, inl, inr, refl, ap, ◌∙◌, arith, Option, none,
  some, [], ◌∷◌, ◌++◌, add64,
}
use zeldar.Hook.Inline.{Entry}
use zeldar.Hook.Entries.{IsEntry}
use zeldar.Hook.Machine.{Cpu, Inst, stur, ldur, b, bl, blr, ret, put, exec, Holds, HoldsWords}
use zeldar.Hook.Machine.Runs.{
  Reaches, Reaches-trans, Reaches-exec, Reaches-outside, Reaches-exec_all, exec_all,
}
use zeldar.Hook.Routine.{inline_hook_impl, backup_registers, recover_registers}
use zeldar.Hook.Routine.Decoded.{decode-stur, decode-ldur, decode-leaves, decode-calls}
use zeldar.Hook.Routine.Frame.{IsSaved}
use zeldar.Hook.Routine.Context.{
  inline_ctx, registers, values_from_eq, IsSeen, IsResumed, IsCallback,
}
use zeldar.Hook.Routine.Halves.{before_call, after_call, before_call_lem, after_call_lem}

put_ne : (a v i : ℕ) (f : ℕ → ℕ) → i ≢ a → put a v f i ≡ f i
put_ne a v i f h = ground arith

last_cases : (i : ℕ) → i < 31 → (i < 30) ⊎ (i ≡ 30)
last_cases i lt = omega arith

frame_cases : (sp a : ℕ) → ((sp - 0x100 ≤ a) × (a < sp)) ⊎ ((a < sp - 0x100) ⊎ (sp ≤ a))
frame_cases sp a = omega arith

module _ (fetch : ℕ → Option Inst) (outside : Cpu → Cpu) (impl entry_cb continues : ℕ)
    (entry : Entry) (c : Cpu) (routine : Holds fetch impl inline_hook_impl)
    (words : HoldsWords fetch entry_cb entry.cb_entry)
    (is_entry : IsEntry entry_cb impl continues entry) (at_entry : c.pc ≡ entry_cb)
    (room : 0x100 ≤ c.sp) (below : c.sp < 2 ^ 64)
    (stored : c.memory (add64 entry_cb 16) ≡ entry.callback)
    (apart : (add64 entry_cb 16 < c.sp - 0x100) ⊎ (c.sp ≤ add64 entry_cb 16))
    (unknown : fetch entry.callback ≡ none) (returns : IsCallback outside entry.callback) where
  abbrev saved_lr : Cpu
  saved_lr = exec (stur 30 (2 ^ 64 - 0x10)) c

  abbrev in_routine : Cpu
  in_routine = exec (bl impl) saved_lr

  abbrev ready : Cpu
  ready = exec_all before_call in_routine

  abbrev seen : Cpu
  seen = exec (blr 20) ready

  abbrev given : Cpu
  given = outside seen

  abbrev recovered : Cpu
  recovered = exec_all after_call given

  abbrev in_entry : Cpu
  in_entry = exec ret recovered

  abbrev final : Cpu
  final = exec (b continues) (exec (ldur 30 (2 ^ 64 - 0x10)) in_entry)

  entry_fetch :
      (fetch entry_cb ≡ some (stur 30 (2 ^ 64 - 0x10)))
      × (fetch (add64 entry_cb 4) ≡ some (bl impl))
      × (fetch (add64 entry_cb 8) ≡ some (ldur 30 (2 ^ 64 - 0x10)))
      × (fetch (add64 entry_cb 12) ≡ some (b continues))
  unfolding IsEntry
  entry_fetch =
      let (call, branch, is_words, calls, leaves) = is_entry in
      let held = rw is_words at words in
      let second : add64 (add64 entry_cb 4) 4 ≡ add64 entry_cb 8 = omega arith in
      let third : add64 (add64 entry_cb 8) 4 ≡ add64 entry_cb 12 = omega arith in
      (
        held.0 ∙ decode-stur entry_cb,
        held.1.0 ∙ decode-calls (add64 entry_cb 4) call _ calls,
        rw second at held.1.1.0 ∙ decode-ldur (add64 entry_cb 8),
        rw (second, third) at held.1.1.1.0 ∙ decode-leaves (add64 entry_cb 12) branch _ leaves,
      )

  saved_elsewhere : (a : ℕ) → (a < c.sp - 0x100) ⊎ (c.sp ≤ a) → saved_lr.memory a ≡ c.memory a
  unfolding exec
  saved_elsewhere a out = ground arith

  saved_there : saved_lr.memory (c.sp - 0x100 + 8 * 30) ≡ c.x 30
  unfolding exec
  saved_there = ground arith

  linked : in_routine.x 30 ≡ add64 entry_cb 8
  unfolding exec
  linked = omega (arith, at_entry)

  -- The routine, split at the call of the callback.
  at_call :
      Reaches fetch outside in_routine ready
      × Holds fetch ready.pc (blr 20 ∷ after_call ++ ret ∷ [])
  unfolding inline_hook_impl backup_registers exec
  at_call =
      Reaches-exec_all fetch outside before_call (blr 20 ∷ after_call ++ ret ∷ []) in_routine refl
        routine

  ready_lem :
      (ready.sp ≡ c.sp - 0x100)
      × (ready.x 0 ≡ c.sp - 0x100)
      × (ready.x 19 ≡ add64 entry_cb 8)
      × (ready.x 20 ≡ entry.callback)
      × IsSaved 0 30 (c.sp - 0x100) in_routine.x in_routine.memory ready.memory
  unfolding exec
  ready_lem =
      let link_eq : add64 (in_routine.x 30) 8 ≡ add64 entry_cb 16 = omega (arith, linked) in
      let (lower, x0, x19, x20, saved) =
        before_call_lem in_routine room below (omega (arith, link_eq)) in
      (
        lower,
        x0,
        x19 ∙ linked,
        x20
            ∙ ap (λ (a : ℕ). in_routine.memory a) link_eq
            ∙ saved_elsewhere (add64 entry_cb 16) apart
            ∙ stored,
        saved,
      )

  seen-IsSeen : IsSeen entry.callback c seen
  unfolding exec inline_ctx registers
  seen-IsSeen =
      let (lower, x0, _, x20, saved) = ready_lem in
      record {
        called = x20;
        argument = x0;
        lower = lower;
        context = values_from_eq 0 31 _ c.x (λ i from lt. elim (last_cases i lt) [
          | inl few ↦ saved.saved i from few ∙ put_ne 30 (add64 saved_lr.pc 4) i c.x (omega arith)
          | inr last ↦ rw last (saved.kept (c.sp - 0x100 + 8 * 30) (omega arith) ∙ saved_there)
        ]);
        kept = λ a. elim (frame_cases c.sp a) [
          | inl inside ↦ inl inside
          | inr out ↦ inr (saved.kept a (omega arith) ∙ saved_elsewhere a out)
        ];
      }

  given_lem :
      (given.pc ≡ add64 ready.pc 4) × (given.sp ≡ c.sp - 0x100) × (given.x 19 ≡ add64 entry_cb 8)
  unfolding exec
  given_lem =
      let (lower, _, x19, x20, _) = ready_lem in
      let (back, same_sp, same) = returns seen x20 in
      (back, same_sp ∙ lower, same 19 (omega arith) (omega arith) ∙ x19)

  at_return : Reaches fetch outside given recovered × Holds fetch recovered.pc (ret ∷ [])
  unfolding recover_registers
  at_return =
      Reaches-exec_all fetch outside after_call (ret ∷ []) given refl (rw given_lem.0 at_call.1.1)

  recovered_lem :
      (recovered.sp ≡ c.sp)
      × (recovered.memory ≡ given.memory)
      × (recovered.x 30 ≡ add64 entry_cb 8)
      × ((i : ℕ) → i < 30 → recovered.x i ≡ given.memory (c.sp - 0x100 + 8 * i))
  recovered_lem =
      let (_, lower, x19) = given_lem in
      let (higher, same_memory, x30, loaded) = after_call_lem given (omega (arith, lower)) in
      (
        omega (arith, higher, lower),
        same_memory,
        x30 ∙ x19,
        λ i lt. loaded i lt ∙ ap (λ (s : ℕ). given.memory (s + 8 * i)) lower,
      )

  final-IsResumed : IsResumed continues c given final
  unfolding exec inline_ctx registers
  final-IsResumed =
      let (same_sp, same_memory, _, loaded) = recovered_lem in
      let slot_eq : add64 recovered.sp (2 ^ 64 - 0x10) ≡ c.sp - 0x100 + 8 * 30 =
        omega (arith, same_sp) in
      record {
        resumed = refl;
        same_sp = same_sp;
        same_memory = same_memory;
        context = values_from_eq 0 31 final.x _ (λ i from lt. elim (last_cases i lt) [
          | inl few ↦
              put_ne 30 (recovered.memory (add64 recovered.sp (2 ^ 64 - 0x10))) i recovered.x
                (omega arith)
              ∙ loaded i few
          | inr last ↦ rw last (
              ap recovered.memory slot_eq
              ∙ ap (λ (m : ℕ → ℕ). m (c.sp - 0x100 + 8 * 30)) same_memory)
        ]);
      }

  in_entry-fetch : fetch in_entry.pc ≡ some (ldur 30 (2 ^ 64 - 0x10))
  unfolding exec
  in_entry-fetch = rw recovered_lem.2 entry_fetch.2

  branch-fetch : fetch (exec (ldur 30 (2 ^ 64 - 0x10)) in_entry).pc ≡ some (b continues)
  unfolding exec
  branch-fetch =
      let next : add64 (add64 entry_cb 8) 4 ≡ add64 entry_cb 12 = omega arith in
      rw (recovered_lem.2, next) entry_fetch.3

  saved_lr-fetch : fetch saved_lr.pc ≡ some (bl impl)
  unfolding exec
  saved_lr-fetch = rw at_entry entry_fetch.1

  Reaches-seen : Reaches fetch outside c seen
  Reaches-seen =
      let trans = Reaches-trans fetch outside in
      let first =
        Reaches-exec fetch outside (stur 30 (2 ^ 64 - 0x10)) c (rw at_entry entry_fetch.0) in
      let second = Reaches-exec fetch outside (bl impl) saved_lr saved_lr-fetch in
      let call = Reaches-exec fetch outside (blr 20) ready at_call.1.0 in
      trans c saved_lr seen first
        (trans saved_lr in_routine seen second (trans in_routine ready seen at_call.0 call))

  Reaches-final : Reaches fetch outside seen final
  Reaches-final =
      let trans = Reaches-trans fetch outside in
      let called = rw (← seen-IsSeen.called) at unknown in
      let back = Reaches-exec fetch outside ret recovered at_return.1.0 in
      let load = Reaches-exec fetch outside (ldur 30 (2 ^ 64 - 0x10)) in_entry in_entry-fetch in
      let before = exec (ldur 30 (2 ^ 64 - 0x10)) in_entry in
      let branch = Reaches-exec fetch outside (b continues) before branch-fetch in
      trans seen given final (Reaches-outside fetch outside seen called) (
        trans given recovered final at_return.0
          (trans recovered in_entry final back (trans in_entry before final load branch)))

  pub entry-IsResumed :
      (seen' : Cpu) × (final' : Cpu) × Reaches fetch outside c seen'
      × IsSeen entry.callback c seen'
      × Reaches fetch outside seen' final'
      × IsResumed continues c (outside seen') final'
  entry-IsResumed = (seen, final, Reaches-seen, seen-IsSeen, Reaches-final, final-IsResumed)
