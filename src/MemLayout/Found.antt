-- ===== src/MemLayout/Found.antt =====
-- `FindModules` of src/lib/util/sys/mem_layout.cpp as a whole.
use mathlib.Core.Option
use zeldar.Base.{
  ℕ, ◌-◌, ◌≤◌, ◌<◌, ◌≡◌, ◌⊎◌, inl, inr, refl, sym, ap, ◌∙◌, arith, Bool, true, Option, none, some,
  List, length, get_or, ltb, leb, Outcome, ok, aborted, assertion, fault, out_of_fuel, ◌>>=◌,
  Bool-cases, lt→ltb, ltb→lt, leb→le,
}
use zeldar.Virtmem.{Reply}
use zeldar.MemLayout.{
  ModuleInfo, Region, Scan, empty_info, start_scan, no_region, find_modules, assert_count,
  check_counts, get_self_start, get_self_module_info, get_sdk_module_info, get_module_info,
}
use zeldar.MemLayout.Walk.{parse, scan, start_scan-parse}
use zeldar.MemLayout.Loop.{
  IsWalk, IsIndexed, IsSelfIdx, IsCount, has_module, scan-IsIndexed, find_loop-scan,
  find_loop-IsWalk, ltb-false_le,
}

-- What is left behind: the modules that reading the regions gives, as many as the counter says, and
-- our own module at its index.
unfoldable pub IsFound : ℕ → List Region → Scan → Type 0
IsFound module_start rs s =
    (s.infos ≡ parse rs)
    × (s.module_count ≡ some (length s.infos))
    × ((i : ℕ) × (s.self_module_idx ≡ some i)
        × (i < length s.infos)
        × ((get_or s.infos i empty_info).total.start ≡ module_start))

start_scan-IsIndexed : (module_start : ℕ) → IsIndexed module_start start_scan
unfolding IsIndexed IsCount IsSelfIdx has_module
start_scan-IsIndexed module_start = (refl, refl)

-- A counter of -1 goes with no module at all.
IsCount-some :
    (infos : List ModuleInfo) (count : Option ℕ)
    → IsCount infos count
    → 0 < length infos
    → count ≡ some (length infos)
unfolding IsCount
IsCount-some infos none h pos = absurd (let e = ap length h in omega arith)
IsCount-some infos (some n) h pos = ap some h

IsSelfIdx-some :
    (a : ℕ) (infos : List ModuleInfo) (idx : Option ℕ)
    → IsSelfIdx a infos idx
    → has_module a infos ≡ true
    → (i : ℕ) × (idx ≡ some i) × (i < length infos) × ((get_or infos i empty_info).total.start ≡ a)
unfolding IsSelfIdx
IsSelfIdx-some a infos none h found = absurd (cc)
IsSelfIdx-some a infos (some i) (lt, at) found = (i, refl, lt, at)

IsIndexed-IsFound :
    (module_start : ℕ) (rs : List Region) (s : Scan)
    → s.infos ≡ parse rs
    → IsIndexed module_start s
    → has_module module_start s.infos ≡ true
    → IsFound module_start rs s
unfolding IsIndexed IsFound
IsIndexed-IsFound module_start rs s e (count, idx) found =
    let (i, at, lt, own) = IsSelfIdx-some module_start s.infos s.self_module_idx idx found in
    (e, IsCount-some s.infos s.module_count count (omega arith), (i, at, lt, own))

check_counts-ok :
    (s : Scan) (i n : ℕ)
    → s.self_module_idx ≡ some i
    → i < 13
    → s.module_count ≡ some n
    → n ≤ 13
    → check_counts s ≡ ok s
unfolding check_counts assert_count
check_counts-ok s i n e h k l =
    rw (k, e, lt→ltb i 13 h)
      (elim (Bool-cases (leb n 13)) [ inl t ↦ rw t refl | inr f ↦ absurd (ground arith) ])

bind_ok {ℓ} :
    {A B : Type ℓ} (call : Outcome A) (next : A → Outcome B) (b : B)
    → call >>= next ≡ ok b
    → (a : A) × (call ≡ ok a) × (next a ≡ ok b)
bind_ok (ok a) next b h = (a, refl, h)
bind_ok (aborted rc) next b h = absurd (cc)
bind_ok assertion next b h = absurd (cc)
bind_ok fault next b h = absurd (cc)
bind_ok out_of_fuel next b h = absurd (cc)

assert_count_inversion :
    (test : ℕ → Bool) (o : Option ℕ) (u : Unit {0})
    → assert_count test o ≡ ok u
    → (n : ℕ) × (o ≡ some n) × (test n ≡ true)
unfolding assert_count
assert_count_inversion test none u h = absurd (cc)
assert_count_inversion test (some n) u h = elim (Bool-cases (test n)) [
  | inl t ↦ (n, refl, t)
  | inr f ↦ absurd (let h' = rw f at h in cc)
]

check_counts_inversion :
    (s s' : Scan)
    → check_counts s ≡ ok s'
    → (s ≡ s')
      × ((i : ℕ) × (s.self_module_idx ≡ some i))
      × ((n : ℕ) × (s.module_count ≡ some n) × (n ≤ 13))
unfolding check_counts
check_counts_inversion s s' h =
    let (u, at_idx, h') = bind_ok _ _ s' h in
    let (i, e, _) = assert_count_inversion _ s.self_module_idx u at_idx in
    let (u', at_count, h'') = bind_ok _ _ s' h' in
    let (n, k, small) = assert_count_inversion _ s.module_count u' at_count in
    (cc, (i, e), (n, k, leb→le n 13 small))

IsSelfIdx-at :
    (a : ℕ) (infos : List ModuleInfo) (idx : Option ℕ) (i : ℕ)
    → idx ≡ some i
    → IsSelfIdx a infos idx
    → (i < length infos) × ((get_or infos i empty_info).total.start ≡ a)
unfolding IsSelfIdx
IsSelfIdx-at a infos none i e h = absurd (cc)
IsSelfIdx-at a infos (some j) i e h = let j_is_i : j ≡ i = cc in rw (sym j_is_i) h

IsCount-at :
    (infos : List ModuleInfo) (count : Option ℕ) (n : ℕ)
    → count ≡ some n
    → IsCount infos count
    → (count ≡ some (length infos)) × (n ≡ length infos)
unfolding IsCount
IsCount-at infos none n e h = absurd (cc)
IsCount-at infos (some m) n e h = (ap some h, let m_is_n : m ≡ n = cc in sym m_is_n ∙ h)

IsFound-check :
    (module_start : ℕ) (rs : List Region) (s : Scan)
    → IsFound module_start rs s
    → length s.infos < 13
    → check_counts s ≡ ok s
unfolding IsFound
IsFound-check module_start rs s (e, count, (i, at, lt, own)) few =
    check_counts-ok s i (length s.infos) at (omega arith) count (omega arith)

scan-IsFound :
    (module_start : ℕ) (rs : List Region) (s : Scan) (i n : ℕ)
    → s ≡ scan module_start rs start_scan
    → s.self_module_idx ≡ some i
    → s.module_count ≡ some n
    → n ≤ 13
    → IsFound module_start rs s × (length s.infos ≤ 13)
unfolding IsFound IsIndexed
scan-IsFound module_start rs s i n e at count small =
    let indexed : IsIndexed module_start s =
      rw e (scan-IsIndexed module_start rs start_scan (start_scan-IsIndexed module_start)) in
    let (lt, own) = IsSelfIdx-at module_start s.infos s.self_module_idx i at indexed.1 in
    let (counted, same) = IsCount-at s.infos s.module_count n count indexed.0 in
    let parsed = ap (λ x. x.infos) e ∙ start_scan-parse module_start rs in
    ((parsed, counted, (i, at, lt, own)), omega arith)

module _ (query : ℕ → Reply Region) (module_start : ℕ) where
  -- When the kernel's answers wrap after at most `fuel` of them, and the lookahead reading of them gives
  -- fewer than 13 modules, one of which starts at our own address, `FindModules` returns. It has
  -- stored these modules, counted them, and found the index of one that starts at our address.
  pub find_modules-parse :
      (fuel : ℕ) (rs : List Region)
      → IsWalk query no_region rs
      → length rs ≤ fuel
      → length (parse rs) < 13
      → has_module module_start (parse rs) ≡ true
      → (s : Scan) × (find_modules query module_start fuel ≡ ok s) × IsFound module_start rs s
  unfolding find_modules
  find_modules-parse fuel rs w enough few own =
      let s = scan module_start rs start_scan in
      let e = start_scan-parse module_start rs in
      let few' : length s.infos < 13 = rw e few in
      let found =
        IsIndexed-IsFound module_start rs s e
          (scan-IsIndexed module_start rs start_scan (start_scan-IsIndexed module_start))
          (rw e own) in
      (
        s,
        rw (find_loop-scan query module_start fuel no_region rs start_scan w enough few')
            (IsFound-check module_start rs s found few'),
        found,
      )

  -- When `FindModules` returns, whatever the kernel answers, the answers wrap, and the modules stored
  -- are those that the lookahead reading of the answers gives: at most 13, counted, with the index of
  -- one that starts at our own address.
  pub find_modules-IsFound :
      (fuel : ℕ) (s : Scan)
      → find_modules query module_start fuel ≡ ok s
      → (rs : List Region) × IsWalk query no_region rs
        × IsFound module_start rs s
        × (length s.infos ≤ 13)
  unfolding find_modules
  find_modules-IsFound fuel s h =
      let (s', looped, checked) = bind_ok _ _ s h in
      let (rs, w, e) = find_loop-IsWalk query module_start fuel no_region start_scan s' looped in
      let (same, (i, at), (n, count, small)) = check_counts_inversion s' s checked in
      let at_s : s.self_module_idx ≡ some i = ap (λ x. x.self_module_idx) (sym same) ∙ at in
      let count_s : s.module_count ≡ some n = ap (λ x. x.module_count) (sym same) ∙ count in
      let (found, few) = scan-IsFound module_start rs s i n (sym same ∙ e) at_s count_s small in
      (rs, w, found, few)

get_module_info-cases :
    (s : Scan) (i : ℕ)
    → s.module_count ≡ some (length s.infos)
    → ((i < length s.infos) × (get_module_info s (some i) ≡ ok (get_or s.infos i empty_info)))
      ⊎ ((length s.infos ≤ i) × (get_module_info s (some i) ≡ assertion))
unfolding get_module_info
get_module_info-cases s i count = elim (Bool-cases (ltb i (length s.infos))) [
  | inl t ↦ inl (ltb→lt i (length s.infos) t, rw (count, t) refl)
  | inr f ↦ inr (ltb-false_le i (length s.infos) f, rw (count, f) refl)
]

get_module_info-ok :
    (s : Scan) (i : ℕ)
    → s.module_count ≡ some (length s.infos)
    → i < length s.infos
    → get_module_info s (some i) ≡ ok (get_or s.infos i empty_info)
get_module_info-ok s i count small = elim (get_module_info-cases s i count) [
  | inl (_, e) ↦ e
  | inr (big, _) ↦ absurd (omega arith)
]

get_self_start-ok :
    (s : Scan) (i : ℕ)
    → s.self_module_idx ≡ some i
    → s.module_count ≡ some (length s.infos)
    → i < length s.infos
    → get_self_start s ≡ ok (get_or s.infos i empty_info).total.start
unfolding get_self_start get_self_module_info
get_self_start-ok s i at count lt = rw (at, get_module_info-ok s i count lt) refl

get_sdk_module_info-ok :
    (s : Scan)
    → s.module_count ≡ some (length s.infos)
    → 0 < length s.infos
    → get_sdk_module_info s ≡ ok (get_or s.infos (length s.infos - 1) empty_info)
unfolding get_sdk_module_info
get_sdk_module_info-ok s count pos =
    rw (ap (λ o. get_module_info s (Option.map (λ n. n - 1) o)) count)
      (get_module_info-ok s (length s.infos - 1) count (omega arith))

-- After the scan an index below the number of modules gives the module, and a greater one fails the
-- assertion; our own start is the one that was looked for, and the last module is the SDK's.
pub get_module_info-IsFound :
    (module_start : ℕ) (rs : List Region) (s : Scan) (i : ℕ)
    → IsFound module_start rs s
    → (((i < length (parse rs))
          × (get_module_info s (some i) ≡ ok (get_or (parse rs) i empty_info)))
        ⊎ ((length (parse rs) ≤ i) × (get_module_info s (some i) ≡ assertion)))
      × (get_self_start s ≡ ok module_start)
      × (get_sdk_module_info s ≡ ok (get_or (parse rs) (length (parse rs) - 1) empty_info))
unfolding IsFound
get_module_info-IsFound module_start rs s i (e, count, (own, at, lt, start)) = rw (sym e) (
  get_module_info-cases s i count,
  get_self_start-ok s own at count lt ∙ ap ok start,
  get_sdk_module_info-ok s count (omega arith),
)
