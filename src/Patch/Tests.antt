-- ===== src/Patch/Tests.antt =====
-- The patchers of src/lib/patch on pages at 0x10000 that are writable at 0x80000.
use zeldar.Base.{ℕ, ◌≤◌, ◌<◌, ◌^◌, ◌≡◌, inl, refl, arith, List, [], ◌∷◌, map, length, some, add64}
use zeldar.RwPages.{Claim}
use zeldar.Hook.Exec.{leaves, calls}
use zeldar.Patch.{
  Machine, stream_patcher, random_access_patcher, Stream, flush, load_bytes, rw_from_addr,
  ro_from_addr, branch_inst, branch_link_inst, branch_inst_pointer, branch_link_inst_pointer,
  random_flush,
}
use zeldar.Patch.Flushed.{Op, write_op, seek_op, run, run_size, IsClean, run-IsClean}
use zeldar.Patch.Written.{concat, inst_at, run-load_bytes}
use zeldar.Patch.Branches.{branch_inst-leaves}
use zeldar.Patch.Bounds.{
  RandomOp, random_write_op, random_flush_op, run_random, IsInside, run_random-IsClean,
}

abbrev pages : Claim
pages = record { ro = 0x10000; rw_view = 0x80000; size = 0x1000 }

abbrev zeroed : Machine
zeroed = record { memory = λ a. 0; effects = [] }

abbrev two_writes : List Op
two_writes = write_op (1 ∷ 2 ∷ []) ∷ seek_op 0x40 ∷ write_op (3 ∷ []) ∷ []

two_writes_size : run_size two_writes < 2 ^ 64
unfolding run_size
two_writes_size = omega arith

run-IsClean_example :
    IsClean pages zeroed.memory
      (flush pages (run pages two_writes (stream_patcher 0x20 zeroed))).machine
      0x40
run-IsClean_example = run-IsClean pages two_writes 0x20 zeroed 0x40 (omega arith) two_writes_size

abbrev values : List (List ℕ)
values = (1 ∷ 2 ∷ []) ∷ (3 ∷ []) ∷ []

values-length : length (concat values) ≤ 2 ^ 64
unfolding concat
values-length = omega arith

abbrev opened : Stream
opened = stream_patcher 0x20 zeroed

run-load_bytes_example :
    let s' = run pages (map write_op values) opened in
    (load_bytes (length (concat values)) (rw_from_addr pages 0x20) s'.machine.memory
      ≡ concat values)
    × (s'.current ≡ add64 0x20 (length (concat values)))
run-load_bytes_example = run-load_bytes pages values opened (omega arith) values-length

branch_inst-leaves_example :
    let at = ro_from_addr pages 0x20 in
    let target = ro_from_addr pages 0x400 in
    (leaves at (inst_at pages 0x20 (branch_inst pages 0x400 opened).machine ∷ []) ≡ some target)
    × (calls at (inst_at pages 0x20 (branch_link_inst pages 0x400 opened).machine ∷ [])
        ≡ some (record { target = target; link = ro_from_addr pages (add64 0x20 4) }))
    × (branch_inst_pointer pages target opened ≡ branch_inst pages 0x400 opened)
    × (branch_link_inst_pointer pages target opened ≡ branch_link_inst pages 0x400 opened)
branch_inst-leaves_example =
    branch_inst-leaves pages 0x400 opened (omega arith) (omega arith) (omega arith) refl
      (inl (omega arith))

abbrev scattered : List RandomOp
scattered = random_write_op 0x40 (1 ∷ 2 ∷ []) ∷ random_flush_op ∷ random_write_op 0x20 (3 ∷ []) ∷ []

scattered-IsInside : IsInside scattered
unfolding IsInside
scattered-IsInside = (omega arith, (omega arith, tt))

run_random-IsClean_example :
    IsClean pages zeroed.memory
      (random_flush pages (run_random pages scattered (random_access_patcher zeroed))).machine
      0x20
run_random-IsClean_example =
    run_random-IsClean pages scattered zeroed 0x20 scattered-IsInside (omega arith)
