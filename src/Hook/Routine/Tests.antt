-- ===== src/Hook/Routine/Tests.antt =====
-- The theorem about src/lib/hook/nx64/inline_asm.s and inline_impl.cpp at a concrete hook.
use zeldar.Base.{
  ℕ, ◌+◌, ◌-◌, ◌≡◌, inl, inr, refl, arith, Option, none, some, [], ltb, leb, ◌&&◌, if◌then◌else◌,
  get_elem?, ◌/◌, add64, Outcome, ok,
}
use zeldar.Armv8.BitSet.{set_bits}
use zeldar.Armv8.Encode.Branches.{branch, branch_link}
use zeldar.Armv8.Encode.LoadStore.{stur_unscaled_immediate, ldur_unscaled_immediate}
use zeldar.Hook.Context.{aarch64_nop}
use zeldar.Hook.Inline.{Inlined, hook_inline, trampoline_rx}
use zeldar.Hook.Machine.{Cpu, Inst, decode, exec, run, Holds, HoldsWords, put}
use zeldar.Hook.Machine.Runs.{Reaches}
use zeldar.Hook.Routine.{inline_hook_impl}
use zeldar.Hook.Routine.Context.{IsSeen, IsResumed, IsCallback}
use zeldar.RwPages.Tests.{space}
use zeldar.Hook.Served.Tests.{pager}
use zeldar.Hook.Routine.Hooked.{hook_inline-IsResumed}

abbrev nops : ℕ → ℕ
nops a = aarch64_nop

abbrev inlining : Outcome Inlined
inlining = hook_inline pager space nops 0x10000 0x30000 2 0x18000 0x20000 3 0x1000 0x5000

result : Outcome Inlined → Inlined
result (ok r) = r
result _ = record {
  hooked = record { code = nops; trampoline = [] };
  trampoline = none;
  entry_cb = 0;
  entry = record { cb_entry = []; callback = 0 };
  next = 0;
  entry_index = 0;
  virtmem = space;
}

abbrev inlined : Inlined
inlined = result inlining

inlined_lem :
    (inlining ≡ ok inlined)
    × (inlined.entry_cb ≡ 0x20048)
    × (trampoline_rx inlined.trampoline ≡ 0x10190)
unfolding hook_inline result
inlined_lem = (refl, refl, refl)

-- The common routine at 0x18000 and the words of the entry.
fetch : ℕ → Option Inst
fetch a =
    if leb 0x18000 a && ltb a 0x18100
    then get_elem? inline_hook_impl ((a - 0x18000) / 4)
    else if leb 0x20048 a && ltb a 0x20058
    then elim (get_elem? inlined.entry.cb_entry ((a - 0x20048) / 4)) [
      | none ↦ none
      | some word ↦ decode a word
    ]
    else none

routine_held : Holds fetch 0x18000 inline_hook_impl
unfolding fetch inline_hook_impl
routine_held = ground arith

words_held : HoldsWords fetch inlined.entry_cb inlined.entry.cb_entry
unfolding fetch hook_inline result
words_held = (refl, (refl, (refl, (refl, tt))))

-- A callback that changes X0 in its context, and a register that it need not keep.
callback : Cpu → Cpu
callback c = record c { pc = c.x 30; x = put 1 0 c.x; memory = put (c.x 0) 7 c.memory }

callback-IsCallback : IsCallback callback 0x5000
unfolding callback
callback-IsCallback c at_callback = (refl, refl, λ i from to. ground arith)

at_entry : Cpu
at_entry = record {
  pc = 0x20048;
  sp = 0x8000_0000;
  x = λ i. i + 100;
  memory = put 0x20058 0x5000 (λ a. 0);
}

-- The whole run, by evaluation: 43 steps to the second word of the trampoline, with X0 changed.
run_inlined :
    ((run fetch callback 43 at_entry).pc ≡ 0x10194)
    × ((run fetch callback 43 at_entry).x 0 ≡ 7)
    × ((run fetch callback 43 at_entry).x 1 ≡ 101)
    × ((run fetch callback 43 at_entry).x 30 ≡ 130)
unfolding fetch callback at_entry run inline_hook_impl hook_inline result decode exec branch
    branch_link stur_unscaled_immediate ldur_unscaled_immediate set_bits
run_inlined = (refl, refl, refl, refl)

hook_inline-IsResumed_example :
    (seen : Cpu) × (final : Cpu) × Reaches fetch callback at_entry seen
    × IsSeen 0x5000 at_entry seen
    × Reaches fetch callback seen final
    × IsResumed (add64 (trampoline_rx inlined.trampoline) 4) at_entry (callback seen) final
unfolding hook_inline result fetch at_entry
hook_inline-IsResumed_example =
    hook_inline-IsResumed pager space nops 0x10000 0x30000 2 0x18000 0x20000 3 0x1000 0x5000 inlined
      refl (omega arith) (omega arith) (refl, inr (omega arith, omega arith))
      (refl, inr (omega arith, omega arith)) fetch callback at_entry routine_held words_held refl
      callback-IsCallback refl refl (omega arith) (omega arith) (inl (omega arith))
