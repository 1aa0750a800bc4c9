-- ===== src/MemLayout/Loop.antt =====
-- The loop of `FindModules` of src/lib/util/sys/mem_layout.cpp as a walk over the kernel's answers,
-- and what a round keeps.
use zeldar.Base.{
  ℕ, zero, suc, ◌+◌, ◌≤◌, ◌<◌, ◌≡◌, ◌⊎◌, inl, inr, refl, ap, ◌∙◌, arith, Bool, false, ◌||◌, Option,
  none, some, List, [], ◌∷◌, ◌++◌, length, get_or, ltb, leb, ◌==◌, if◌then◌else◌, add64, Outcome,
  ok, Bool-cases, length-append, ==_iff, lt→ltb, ltb→lt,
}
use zeldar.Virtmem.{Reply, value, failed}
use zeldar.MemLayout.{
  ModuleInfo, Region, State, Scan, empty_info, is_text, is_rodata, is_data, step, switch_state,
  store_text, store_rodata, store_module, reset, find_loop,
}
use zeldar.MemLayout.Walk.{scan}

module _ (query : ℕ → Reply Region) where
  -- The regions that the kernel answers after the region `p`, each asked for at the end of the one
  -- before it, up to the first one that lies below its predecessor.
  pub data IsWalk : Region → List Region → Type 0 where
    wrapped :
        {p r : Region} → query (add64 p.addr p.size) ≡ value r → r.addr < p.addr → IsWalk p (r ∷ [])
    walked :
        {p r : Region} {rs : List Region}
        → query (add64 p.addr p.size) ≡ value r
        → p.addr ≤ r.addr
        → IsWalk r rs
        → IsWalk p (r ∷ rs)

-- Whether a module of the list starts at the address.
unfoldable pub has_module : ℕ → List ModuleInfo → Bool
has_module module_start [] = false
has_module module_start (m ∷ ms) = (m.total.start == module_start) || has_module module_start ms

-- The index that `FindModules` writes for our own module: one of the stored modules starts at
-- `module_start`, and it is the one with this index, or none does.
unfoldable pub IsSelfIdx : ℕ → List ModuleInfo → Option ℕ → Type 0
IsSelfIdx module_start infos none = has_module module_start infos ≡ false
IsSelfIdx module_start infos (some i) =
    (i < length infos) × ((get_or infos i empty_info).total.start ≡ module_start)

unfoldable pub IsCount : List ModuleInfo → Option ℕ → Type 0
IsCount infos none = infos ≡ []
IsCount infos (some n) = n ≡ length infos

unfoldable pub IsIndexed : ℕ → Scan → Type 0
unfolding IsSelfIdx IsCount
IsIndexed module_start s =
    IsCount s.infos s.module_count × IsSelfIdx module_start s.infos s.self_module_idx

get_or-append_last {ℓ} :
    {A : Type ℓ} (xs : List A) (x d : A) → get_or (xs ++ x ∷ []) (length xs) d ≡ x
get_or-append_last [] x d = refl
get_or-append_last (y ∷ xs) x d = get_or-append_last xs x d

get_or-append {ℓ} :
    {A : Type ℓ} (xs ys : List A) (i : ℕ) (d : A)
    → i < length xs
    → get_or (xs ++ ys) i d ≡ get_or xs i d
get_or-append [] ys i d h = absurd (omega arith)
get_or-append (x ∷ xs) ys zero d h = refl
get_or-append (x ∷ xs) ys (suc i) d h = get_or-append xs ys i d (omega arith)

has_module-append :
    (a : ℕ) (ms : List ModuleInfo) (m : ModuleInfo)
    → has_module a (ms ++ m ∷ []) ≡ has_module a ms || (m.total.start == a)
unfolding has_module
has_module-append a [] m = ground arith
has_module-append a (x ∷ ms) m = ground (arith, has_module-append a ms m)

IsSelfIdx-kept :
    (a : ℕ) (ms : List ModuleInfo) (m : ModuleInfo) (idx : Option ℕ)
    → (m.total.start == a) ≡ false
    → IsSelfIdx a ms idx
    → IsSelfIdx a (ms ++ m ∷ []) idx
unfolding IsSelfIdx
IsSelfIdx-kept a ms m none e h = ground (arith, has_module-append a ms m)
IsSelfIdx-kept a ms m (some i) e (lt, h) = (
  omega (arith, length-append ms (m ∷ [])),
  ap (λ x. x.total.start) (get_or-append ms (m ∷ []) i empty_info lt) ∙ h,
)

-- A stored module keeps the index right.
IsSelfIdx-append :
    (a : ℕ) (ms : List ModuleInfo) (m : ModuleInfo) (idx : Option ℕ)
    → IsSelfIdx a ms idx
    → IsSelfIdx a (ms ++ m ∷ []) (if m.total.start == a then some (length ms) else idx)
unfolding IsSelfIdx
IsSelfIdx-append a ms m idx h = elim (Bool-cases (m.total.start == a)) [
  | inl e ↦ rw e (
    omega (arith, length-append ms (m ∷ [])),
    ap (λ x. x.total.start) (get_or-append_last ms m empty_info) ∙ (==_iff m.total.start a).0 e,
  )
  | inr e ↦ rw e (IsSelfIdx-kept a ms m idx e h)
]

-- The three variables that outlive a round: they stay, or a module is stored.
unfoldable IsStored : ℕ → Scan → Scan → ModuleInfo → Type 0
IsStored module_start s s' m =
    (s'.infos ≡ s.infos ++ m ∷ [])
    × (s'.module_count ≡ some (length s.infos + 1))
    × (s'.self_module_idx
        ≡ (if m.total.start == module_start then some (length s.infos) else s.self_module_idx))

unfoldable IsKept : Scan → Scan → Type 0
IsKept s s' =
    (s'.infos ≡ s.infos)
    × (s'.module_count ≡ s.module_count)
    × (s'.self_module_idx ≡ s.self_module_idx)

store_module-IsStored :
    (module_start : ℕ) (r : Region) (s : Scan)
    → (m : ModuleInfo) × IsStored module_start s (store_module module_start r s) m
unfolding store_module reset IsStored
store_module-IsStored module_start r s = (_, (refl, refl, refl))

reset-IsKept : (s : Scan) → IsKept s (reset s)
unfolding reset IsKept
reset-IsKept s = (refl, refl, refl)

store_text-IsKept : (r : Region) (s : Scan) → IsKept s (store_text r s)
unfolding store_text IsKept
store_text-IsKept r s = (refl, refl, refl)

store_rodata-IsKept : (r : Region) (s : Scan) → IsKept s (store_rodata r s)
unfolding store_rodata IsKept
store_rodata-IsKept r s = (refl, refl, refl)

same-IsKept : (s : Scan) → IsKept s s
unfolding IsKept
same-IsKept s = (refl, refl, refl)

IsCount-append :
    (infos : List ModuleInfo) (m : ModuleInfo) → IsCount (infos ++ m ∷ []) (some (length infos + 1))
unfolding IsCount
IsCount-append infos m = omega (arith, length-append infos (m ∷ []))

switch_state-cases :
    (module_start : ℕ) (r : Region) (s : Scan) (state : State)
    → let s' = switch_state module_start r s state in
      IsKept s s' ⊎ ((m : ModuleInfo) × IsStored module_start s s' m)
unfolding switch_state
switch_state-cases module_start r s State.looking_for_code_static = elim (Bool-cases (is_text r)) [
  | inl e ↦ rw e (inl (store_text-IsKept r s))
  | inr e ↦ rw e (inl (same-IsKept s))
]
switch_state-cases module_start r s State.expecting_rodata = elim (Bool-cases (is_rodata r)) [
  | inl e ↦ rw e (inl (store_rodata-IsKept r s))
  | inr e ↦ rw e (inl (reset-IsKept s))
]
switch_state-cases module_start r s State.expecting_data = elim (Bool-cases (is_data r)) [
  | inl e ↦ rw e (inr (store_module-IsStored module_start r s))
  | inr e ↦ rw e (inl (reset-IsKept s))
]

IsKept-IsIndexed :
    (module_start : ℕ) (s s' : Scan)
    → IsKept s s'
    → IsIndexed module_start s
    → IsIndexed module_start s'
unfolding IsKept IsIndexed
IsKept-IsIndexed module_start s s' (e, c, i) (count, idx) = (rw (e, c) count, rw (e, i) idx)

IsStored-IsIndexed :
    (module_start : ℕ) (s s' : Scan) (m : ModuleInfo)
    → IsStored module_start s s' m
    → IsIndexed module_start s
    → IsIndexed module_start s'
unfolding IsStored IsIndexed
IsStored-IsIndexed module_start s s' m (e, c, i) (count, idx) = (
  rw (e, c) (IsCount-append s.infos m),
  rw (e, i) (IsSelfIdx-append module_start s.infos m s.self_module_idx idx),
)

-- Each round keeps the indices right.
pub step-IsIndexed :
    (module_start : ℕ) (r : Region) (s : Scan)
    → IsIndexed module_start s
    → IsIndexed module_start (step module_start r s)
unfolding step
step-IsIndexed module_start r s h = elim (switch_state-cases module_start r s s.state) [
  | inl kept ↦ IsKept-IsIndexed module_start s (step module_start r s) kept h
  | inr (m, stored) ↦ IsStored-IsIndexed module_start s (step module_start r s) m stored h
]

pub scan-IsIndexed :
    (module_start : ℕ) (rs : List Region) (s : Scan)
    → IsIndexed module_start s
    → IsIndexed module_start (scan module_start rs s)
unfolding scan
scan-IsIndexed module_start [] s h = h
scan-IsIndexed module_start (r ∷ rs) s h =
    scan-IsIndexed module_start rs (step module_start r s) (step-IsIndexed module_start r s h)

step-length :
    (module_start : ℕ) (r : Region) (s : Scan)
    → length s.infos ≤ length (step module_start r s).infos
unfolding step IsKept IsStored
step-length module_start r s = elim (switch_state-cases module_start r s s.state) [
  | inl (e, _, _) ↦ rw e (omega arith)
  | inr (m, (e, _, _)) ↦ rw e (omega (arith, length-append s.infos (m ∷ [])))
]

scan-length :
    (module_start : ℕ) (rs : List Region) (s : Scan)
    → length s.infos ≤ length (scan module_start rs s).infos
unfolding scan
scan-length module_start [] s = omega arith
scan-length module_start (r ∷ rs) s =
    omega (arith, step-length module_start r s, scan-length module_start rs (step module_start r s))

pub ltb-false_le : (a b : ℕ) → ltb a b ≡ false → b ≤ a
ltb-false_le a b h = ground arith

Reply-cases {ℓ} :
    {A : Type ℓ} (reply : Reply A)
    → ((rc : ℕ) × (reply ≡ failed rc)) ⊎ ((a : A) × (reply ≡ value a))
Reply-cases (failed rc) = inl (rc, refl)
Reply-cases (value a) = inr (a, refl)

ok_injective : (s s' : Scan) → ◌≡◌ {A = Outcome Scan} (ok s) (ok s') → s' ≡ s
ok_injective s s' h = cc

leb-false : (n : ℕ) → n < 13 → leb 13 n ≡ false
leb-false n h = ground arith

ltb-false : (a b : ℕ) → b ≤ a → ltb a b ≡ false
ltb-false a b h = ground arith

module _ (query : ℕ → Reply Region) (module_start : ℕ) where
  scan-few :
      (rs : List Region) (s : Scan)
      → length (scan module_start rs s).infos < 13
      → length s.infos < 13
  scan-few rs s few = omega (arith, scan-length module_start rs s)

  -- A walk is what the loop goes through, when it does not find too many modules.
  pub find_loop-scan :
      (fuel : ℕ) (p : Region) (rs : List Region) (s : Scan)
      → IsWalk query p rs
      → length rs ≤ fuel
      → length (scan module_start rs s).infos < 13
      → find_loop query module_start fuel p s ≡ ok (scan module_start rs s)
  unfolding find_loop scan
  find_loop-scan fuel p [] s w enough few = elim w [ ]
  find_loop-scan zero p (r ∷ rs) s w enough few = absurd (omega arith)
  find_loop-scan (suc fuel) p (r ∷ []) s (wrapped e lt) enough few =
      rw (leb-false (length s.infos) (scan-few (r ∷ []) s few), e, lt→ltb r.addr p.addr lt) refl
  find_loop-scan (suc fuel) p (r ∷ rs) s (walked e le w) enough few =
      rw (leb-false (length s.infos) (scan-few (r ∷ rs) s few), e, ltb-false r.addr p.addr le)
        (find_loop-scan fuel r rs (step module_start r s) w (omega arith) few)

  -- A loop that returns has gone through a walk.
  pub find_loop-IsWalk :
      (fuel : ℕ) (p : Region) (s s' : Scan)
      → find_loop query module_start fuel p s ≡ ok s'
      → (rs : List Region) × IsWalk query p rs × (s' ≡ scan module_start rs s)
  unfolding find_loop scan
  find_loop-IsWalk zero p s s' h = absurd (cc)
  find_loop-IsWalk (suc fuel) p s s' h = elim (Bool-cases (leb 13 (length s.infos))) [
    | inl full ↦ absurd (let h' = rw full at h in cc)
    | inr few ↦ elim (Reply-cases (query (add64 p.addr p.size))) [
      | inl (rc, no_reply) ↦ absurd (let h' = rw (few, no_reply) at h in cc)
      | inr (r, reply) ↦ elim (Bool-cases (ltb r.addr p.addr)) [
        | inl below ↦ (
          r ∷ [],
          wrapped reply (ltb→lt r.addr p.addr below),
          ok_injective (step module_start r s) s' (rw (few, reply, below) at h),
        )
        | inr above ↦
            let (rs, w, e) =
              find_loop-IsWalk fuel r (step module_start r s) s' (rw (few, reply, above) at h) in
            (r ∷ rs, walked reply (ltb-false_le r.addr p.addr above) w, e)
      ]
    ]
  ]
