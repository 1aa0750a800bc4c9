-- ===== src/Lib.antt =====
-- Verification of zeldar, a modification of a console game that hooks the game's code at run time.
--
-- The parts and the files that model them:
--   * Armv8: the instruction encoders of lib/armv8. `BitSet` is lib/util/math/bitset.hpp, `Register`
--     is register.hpp, and `Encode` holds one function per constructor of instructions/. A word is
--     built by the same `Set` calls in the same order. `Isa` is the reference: the fields of a word,
--     and where a branch or an address instruction leads.
--   * Hook: lib/hook/nx64/hook_impl.cpp. `Context` is `context` with its reference map, `Fix` and its
--     children the functions `__fix_branch_imm`, `__fix_cond_comp_test_branch`, `__fix_loadlit` and
--     `__fix_pcreladdr`, `Fix/Loop` is `__fix_instructions`, and `Install` is `AllocForTrampoline`,
--     `HookFuncImpl` and `Hook`. `Exec` is the reference: where a run of words continues. `Jumps`,
--     `Branches`, `References`, `Copied`, `Over`, `CondWords`, `Conditions`, `Size`, `Literals`, `Slots`,
--     `Served` (the pages of a hook) and `Patch` are the proofs. `Inline` is `HookInline` of
--     lib/hook/nx64/inline_impl.cpp, with `Entries` and `Encoded` for its proofs. `Routine` is the common
--     routine inline_asm.s of the inline hooks, instruction by instruction, run on the registers and
--     the memory of `Machine`; its children follow the code from an entry to the callback and back.
--   * Virtmem: lib/nx/kernel/virtmem.c. The file itself has the regions, `virtmemSetup` and the list
--     of reservations in memory; `Find` is the random search; `Reserved`, `Search`, `Chain` and
--     `Remove` are the proofs on the walk over the list, on the search and on the links of the list.
--   * Input: helpers/InputHelper.cpp and InputHelper.h, with `Buttons` for the tests of single buttons and
--     the names of the styles, and `Frames` for the proofs.
--   * RwPages: `RwPages` of lib/util/sys/rw_pages.hpp and rw_pages.cpp: the claim, and in `Ranges` the
--     constructor, the destructor and the moves; `Views`, `Cover` and `Lifecycle` have the proofs.
--   * Caches: the calls for the caches, which the patchers and the pages keep a list of.
--   * MemLayout: lib/util/sys/mem_layout.cpp and mem_layout.hpp, with lib/util/modules.hpp: the scan for
--     the modules and the regions of the address space. `Walk` has the reading of the regions with a
--     lookahead that the state machine is compared with, `Loop` and `Found` the loop and the whole
--     scan, `Ranges` the regions.
--   * Patch: the stream, code and random access patchers of lib/patch. `Flushed` and `Bounds` are about
--     the caches, `Memory` and `Written` about the memory, `Branches` about the branches that are
--     written.
--   * Reloc: `exl_dynamic` of lib/reloc/elf.cpp. `Dynamic` is about the dynamic section and `Tables` about
--     the relocations.
--   * PtrPath: lib/util/ptr_path.hpp, with `Follow` for the proofs.
--   * ProcHandle: lib/util/sys/cur_proc_handle.cpp as two threads that share `s_Handle` and the table of
--     handles, a statement at a time and in any order; `Kept` has the invariant and `Runs` the end.
--   * Files: helpers/fsHelper.cpp; `Handles` is about the handles that are left open.
--   * Base: the shared helpers: machine words, lists over the native numbers, bits and masks, and how
--     a call ends (`Outcome`).
-- These paths are below src/ of the repository, and each file names its source.
--
-- Hook writes the words of a trampoline and of a patch; the offsets that it packs are those of
-- Armv8/Isa, which the encoders are judged by too. An inline hook is a hook that goes to an entry
-- whose words the encoders build, and so are the branches of the code patcher. A hook makes and
-- destroys its own RwPages, whose range Virtmem finds; a write through them inside their pages is a
-- write at the function, and an access behind these pages is a `fault`. A patcher works on the
-- pages of the main module, which the scan has found, through the two views of RwPages.
--
-- Conventions. An address is a number below 2 ^ 64, an `int64_t` is its two's-complement pattern, and
-- each operation writes its wrap-around out. The code that is hooked is a function from addresses to
-- words. A pointer to an output word is its index in the list of the words written so far, and both
-- views of the output advance with it. A function of the source that returns `false` returns `none`.
--
-- Bounds and fuel. The padding loops of `__fix_loadlit` have four rounds, where at most three
-- words bring an address to a multiple of 16 bytes. The loops of virtmem.c are without a bound in the source: `fuel` bounds
-- the draws of one attempt and the walk over the reservations, and a `fuel` is
-- enough in which a draw leads outside the forbidden regions and the list ends. The scan of the
-- modules asks the kernel until the answers wrap: `fuel` bounds the answers, and every number of rounds
-- that reaches the wrap is enough. The loop over the ranges of two views has a round for each range,
-- and as many rounds as bytes are enough. A run of the
-- machine of the inline hooks, and one of the two threads, is a number of steps that the theorem gives or bounds.
--
-- Parameters: what the kernel answers (`svcGetInfo`, `svcQueryMemory`, `svcUnmapMemory`), the random
-- numbers, `malloc`, what `memcmp` gives for the two views of a hook, the start of our own module, where the common routine of the inline hooks is and what
-- their callbacks do, the file library, and what the input devices report.
--
-- Not modelled: what the caches hold (the patchers' calls for them are in a trace); the runtime loader of
-- lib/reloc/rtld, a copy of another project's library; lib/nx/smc.c and svc, which wrap system calls;
-- the logical immediates, whose file no source includes; graphics, menus, diagnostics,
-- start-up code and the console's own headers.
pub mod Base
pub mod Armv8
pub mod Caches
pub mod Hook
pub mod Virtmem
pub mod Input
pub mod RwPages
pub mod MemLayout
pub mod Patch
pub mod Reloc
pub mod PtrPath
pub mod Files
pub mod ProcHandle
