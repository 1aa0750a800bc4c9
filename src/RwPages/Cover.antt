-- ===== src/RwPages/Cover.antt =====
-- The ranges that `ForEachMemRange` of src/lib/util/sys/rw_pages.cpp calls back for.
use zeldar.Base.{
  ℕ, zero, suc, ◌+◌, ◌*◌, ◌/◌, ◌%◌, ◌≤◌, ◌<◌, ◌^◌, ◌≡◌, ◌≢◌, ◌↔◌, inl, inr, refl, sym, ap, ◌∙◌,
  arith, true, false, Bool-cases, ltb→lt, List, [], ◌∷◌, min, max, ltb, add64, sub64, ok,
}
use zeldar.Virtmem.{Reply, value, MemoryInfo}
use zeldar.Virtmem.Chain.{is_null-false}
use zeldar.RwPages.{Claim, get_aligned_ro, get_aligned_size}
use zeldar.RwPages.Ranges.{
  MapCall, map_call, abort_unless, ranges_loop, for_each_mem_range, map_part, rw_pages,
}

-- The calls follow each other from `at` to `end`, each with its distance from `start`.
unfoldable pub IsRun : (start at end : ℕ) → List MapCall → Type 0
IsRun start at end [] = at ≡ end
IsRun start at end (c ∷ cs) =
    (c.address ≡ at) × (start + c.offset ≡ at) × (0 < c.size) × IsRun start (at + c.size) end cs

-- Below `end` the kernel answers with the range that an address is in, and ranges are next to each
-- other.
unfoldable pub IsMap : (ℕ → Reply MemoryInfo) → ℕ → Type 0
IsMap query end =
    ((a : ℕ)
      → a < end
      → (info : MemoryInfo) × (query a ≡ value info)
        × (info.addr ≤ a)
        × (a < info.addr + info.size)
        × (info.addr + info.size < 2 ^ 64))
    × ((a : ℕ) (info next : MemoryInfo)
        → query a ≡ value info
        → query (info.addr + info.size) ≡ value next
        → next.addr ≡ info.addr + info.size)

min_at_end : (end next : ℕ) → ltb next end ≡ false → min end next ≡ end
min_at_end end next h = ground arith

module _ (query : ℕ → Reply MemoryInfo) (callback : MapCall → Reply (Unit {0})) (start end : ℕ)
    (is_map : IsMap query end) (answers : (c : MapCall) → callback c ≡ value tt)
    (end_lt : end < 2 ^ 64) where
  map_call_lem :
      (at : ℕ) (info : MemoryInfo)
      → start ≤ at
      → at < end
      → max info.addr start ≡ at
      → at < info.addr + info.size
      → info.addr + info.size < 2 ^ 64
      → let c = map_call start end info in
        (c.address ≡ at)
        × (start + c.offset ≡ at)
        × (0 < c.size)
        × (at + c.size ≡ min end (info.addr + info.size))
  unfolding map_call
  map_call_lem at info le lt here inside below =
      (ground arith, ground arith, ground arith, ground arith)

  loop_more :
      (fuel at : ℕ) (info : MemoryInfo) (next : ℕ) (calls : List MapCall)
      → query at ≡ value info
      → add64 info.addr info.size ≡ next
      → ltb next end ≡ true
      → ranges_loop query callback fuel start end next ≡ ok calls
      → ranges_loop query callback (suc fuel) start end at ≡ ok (map_call start end info ∷ calls)
  unfolding ranges_loop abort_unless
  loop_more fuel at info next calls reply e more runs =
      rw (reply, answers (map_call start end info), e, more, runs) refl

  loop_last :
      (fuel at : ℕ) (info : MemoryInfo) (next : ℕ)
      → query at ≡ value info
      → add64 info.addr info.size ≡ next
      → ltb next end ≡ false
      → ranges_loop query callback (suc fuel) start end at ≡ ok (map_call start end info ∷ [])
  unfolding ranges_loop abort_unless
  loop_last fuel at info next reply e done =
      rw (reply, answers (map_call start end info), e, done) refl

  ranges_loop-IsRun :
      (fuel at : ℕ)
      → start ≤ at
      → at < end
      → end ≤ at + fuel
      → ((info : MemoryInfo) → query at ≡ value info → max info.addr start ≡ at)
      → (calls : List MapCall) × (ranges_loop query callback fuel start end at ≡ ok calls)
        × IsRun start at end calls
  unfolding ranges_loop IsMap IsRun
  ranges_loop-IsRun zero at le lt enough here = absurd (omega arith)
  ranges_loop-IsRun (suc fuel) at le lt enough here =
      let (info, reply, from, inside, below) = is_map.0 at lt in
      let (address, offset, pos, reach) =
        map_call_lem at info le lt (here info reply) inside below in
      let c : MapCall = map_call start end info in
      elim (Bool-cases (ltb (info.addr + info.size) end)) [
        | inl more ↦
            let (calls, runs, run) =
              ranges_loop-IsRun fuel (info.addr + info.size) (omega arith)
                (ltb→lt (info.addr + info.size) end more) (omega arith)
                (λ next reply'. omega (arith, is_map.1 at info next reply reply')) in
            let next_eq : add64 info.addr info.size ≡ info.addr + info.size = omega arith in
            let reach' : at + c.size ≡ info.addr + info.size = ground arith in
            (
              c ∷ calls,
              loop_more fuel at info (info.addr + info.size) calls reply next_eq more runs,
              (address, offset, pos, rw reach' run),
            )
        | inr done ↦
            let next_eq : add64 info.addr info.size ≡ info.addr + info.size = omega arith in
            (
              c ∷ [],
              loop_last fuel at info (info.addr + info.size) reply next_eq done,
              (address, offset, pos, reach ∙ min_at_end end (info.addr + info.size) done),
            )
      ]

max_at_start :
    (info info' : MemoryInfo) (start : ℕ)
    → ◌≡◌ {A = Reply MemoryInfo} (value info) (value info')
    → info'.addr ≤ start
    → max info.addr start ≡ start
max_at_start info info' start e le =
    let same : info ≡ info' = cc in let same_addr = ap (λ i. i.addr) same in omega arith

for_each_mem_range-IsRun :
    (query : ℕ → Reply MemoryInfo) (callback : MapCall → Reply (Unit {0})) (fuel start length : ℕ)
    → IsMap query (start + length)
    → ((c : MapCall) → callback c ≡ value tt)
    → start + length < 2 ^ 64
    → 0 < length
    → length ≤ fuel
    → (calls : List MapCall) × (for_each_mem_range query callback fuel start length ≡ ok calls)
      × IsRun start start (start + length) calls
unfolding for_each_mem_range IsMap
for_each_mem_range-IsRun query callback fuel start length is_map answers below pos enough =
    let end_eq : add64 start length ≡ start + length = omega arith in
    let first : add64 start 0 ≡ start = omega arith in
    rw (end_eq, first)
      (ranges_loop-IsRun query callback start (start + length) is_map answers below fuel start
        (omega arith) (omega arith) (omega arith)
        (λ info reply.
          let (info', reply', from, _, _) = is_map.0 start (omega arith) in
          max_at_start info info' start (sym reply ∙ reply') from))

-- What the constructor of the pages of `size` bytes at `ro` leaves behind.
unfoldable pub IsMapped : (ro size aligned_rw : ℕ) → Claim → List MapCall → Type 0
unfolding IsRun get_aligned_ro get_aligned_size
IsMapped ro size aligned_rw c calls =
    (c.ro ≡ ro)
    × (c.size ≡ size)
    × (c.rw_view ≡ aligned_rw + ro % 0x1000)
    × IsRun (get_aligned_ro c) (get_aligned_ro c) (get_aligned_ro c + get_aligned_size c) calls

pub rw_pages-IsMapped :
    (query : ℕ → Reply MemoryInfo) (map_memory : ℕ → ℕ → ℕ → Reply (Unit {0}))
    (fuel ro size aligned_rw reserve : ℕ)
    → IsMap query (ro / 0x1000 * 0x1000 + (size + 0xfff) / 0x1000 * 0x1000)
    → ((rw_addr address part : ℕ) → map_memory rw_addr address part ≡ value tt)
    → ro + size + 0x2000 < 2 ^ 64
    → aligned_rw + 0x1000 < 2 ^ 64
    → 0 < size
    → size + 0xfff ≤ fuel
    → aligned_rw ≢ 0
    → reserve ≢ 0
    → (c : Claim) × (calls : List MapCall) × (rw_pages query map_memory fuel ro size aligned_rw
          reserve 0
        ≡ ok (c, calls))
      × IsMapped ro size aligned_rw c calls
      × ((ro + size ≤ get_aligned_ro c + get_aligned_size c)
          ↔ (ro % 0x1000 + size ≤ (size + 0xfff) / 0x1000 * 0x1000))
unfolding rw_pages get_aligned_ro get_aligned_size IsMapped
rw_pages-IsMapped query map_memory fuel ro size aligned_rw reserve is_map answers below rw_below pos
      enough found reserved =
    let start : ℕ = ro / 0x1000 * 0x1000 in
    let up : add64 size 0xfff / 0x1000 * 0x1000 ≡ (size + 0xfff) / 0x1000 * 0x1000 = omega arith in
    let (calls, runs, run) =
      for_each_mem_range-IsRun query (map_part map_memory aligned_rw) fuel start
        ((size + 0xfff) / 0x1000 * 0x1000) is_map
        (λ c. answers (add64 aligned_rw c.offset) c.address c.size) (omega arith) (omega arith)
        (omega arith) in
    let a_range = is_null-false aligned_rw found in
    let a_reserve = is_null-false reserve reserved in
    (
      record { ro = ro; rw_view = add64 aligned_rw (sub64 ro start); size = size },
      calls,
      rw (a_range, a_reserve, up, runs) refl,
      (refl, refl, omega arith, rw up run),
      (λ h. omega arith, λ h. omega arith),
    )
