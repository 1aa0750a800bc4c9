-- ===== src/Virtmem/Search.antt =====
-- What the search of src/lib/nx/kernel/virtmem.c finds.
use zeldar.Base.{
  ℕ, zero, suc, ◌+◌, ◌-◌, ◌*◌, ◌/◌, ◌%◌, ◌^◌, ◌≤◌, ◌<◌, ◌≡◌, inl, inr, refl, ap, ◌∙◌, sym, arith,
  Bool, true, false, Bool-cases, not, ◌||◌, ◌⊎◌, Option, none, some, ltb, add64, sub64, ok,
}
use native.Mathlib.Nat.{mod-lt}
use zeldar.Base.Masks.{mask_field}
use zeldar.Virtmem.{MemRegion, Virtmem, MemoryInfo, Reply, value}
use zeldar.Virtmem.Reserved.{IsListed, Ends, is_null, reserved_loop-IsListed, reserved_loop-ok}
use zeldar.Virtmem.Find.{
  random_max_attempts, memregion_overlaps, memregion_is_mapped, memregion_is_reserved, page_align,
  draw, is_avoided, draw_loop, is_taken, attempt_loop, memregion_find_random,
}

-- The aligned size is the least multiple of the page size that holds the size, unless it wraps.
pub page_align_lem : (n : ℕ) → page_align n ≡ add64 n 0xfff / 2 ^ 12 * 2 ^ 12
page_align_lem n = ground (arith, mask_field 12 52 (add64 n 0xfff))

room_lem :
    (start end size q : ℕ)
    → start ≤ end
    → end < 2 ^ 64
    → size ≤ end - start
    → q < sub64 (sub64 end start) size / 2 ^ 12 + 1
    → (start ≤ add64 start (q * 2 ^ 12))
      × (add64 start (q * 2 ^ 12) + size ≤ end)
      × (add64 (add64 start (q * 2 ^ 12)) size ≡ add64 start (q * 2 ^ 12) + size)
room_lem start end size q le lt room h =
    let inside : q * 2 ^ 12 + size ≤ end - start = ground arith in
    (ground arith, ground arith, ground arith)

-- The range lies behind the region or in front of it.
abbrev pub IsApart : MemRegion → (start end : ℕ) → Type 0
IsApart r start end = (r.end ≤ start) ⊎ (end ≤ r.start)

IsApart-of :
    (r : MemRegion) (start end : ℕ) → memregion_overlaps r start end ≡ false → IsApart r start end
IsApart-of r start end h = ground arith

-- An answer that makes a range count as unmapped.
free_answer :
    (query : ℕ → Reply MemoryInfo) (start end guard : ℕ) (m : MemoryInfo)
    → query (sub64 start guard) ≡ value m
    → memregion_is_mapped query start end guard ≡ ok false
    → (m.unmapped ≡ true) × (add64 end guard ≤ add64 m.addr m.size)
unfolding memregion_is_mapped
free_answer query start end guard m answer h =
    let e : ok (not m.unmapped || ltb (add64 m.addr m.size) (add64 end guard)) ≡ ok false =
      rw (answer, memregion_is_mapped) at h in
    free_tests m.unmapped (add64 m.addr m.size) (add64 end guard) (ok_eq e)
  where
    ok_eq : {a b : Bool} → ok a ≡ ok b → a ≡ b
    ok_eq e = cc

    free_tests :
        (unmapped : Bool) (x y : ℕ)
        → (not unmapped || ltb x y) ≡ false
        → (unmapped ≡ true) × (y ≤ x)
    free_tests true x y e = (refl, ground arith)
    free_tests false x y e = absurd (cc)

module _ (rng : ℕ → ℕ) (query : ℕ → Reply MemoryInfo) (v : Virtmem) where
  -- One of the `fuel` draws from `i` on lies outside the alias and the heap region.
  unfoldable pub HasDraw : ℕ → MemRegion → ℕ → ℕ → Type 0
  HasDraw fuel r size i =
      (k : ℕ) × (k < fuel) × (is_avoided rng query v size (draw rng query v r size (i + k)) ≡ false)

  IsDrawn : MemRegion → ℕ → ℕ → Type 0
  IsDrawn r size a =
      ((j : ℕ) × (a ≡ draw rng query v r size j)) × (is_avoided rng query v size a ≡ false)

  draw_loop-ok :
      (fuel : ℕ) (r : MemRegion) (size i k : ℕ)
      → k < fuel
      → is_avoided rng query v size (draw rng query v r size (i + k)) ≡ false
      → (a : ℕ) × (i' : ℕ) × (draw_loop rng query v fuel r size i ≡ ok (a, i')) × IsDrawn r size a
  unfolding draw_loop IsDrawn
  draw_loop-ok zero r size i k le h = absurd (omega arith)
  draw_loop-ok (suc fuel) r size i k le h =
      elim (Bool-cases (is_avoided rng query v size (draw rng query v r size i))) [
        | inr out ↦ (draw rng query v r size i, i + 1, rw out refl, ((i, refl), out))
        | inl avoided ↦ elim (is_null k) [
          | inl e ↦
              let e' : i + k ≡ i = omega arith in
              let out =
                sym (ap (λ j. is_avoided rng query v size (draw rng query v r size j)) e') ∙ h in
              (draw rng query v r size i, i + 1, rw out refl, ((i, refl), out))
          | inr ne ↦
              let e : i + k ≡ i + 1 + (k - 1) = omega arith in
              let h' =
                sym (ap (λ j. is_avoided rng query v size (draw rng query v r size j)) e) ∙ h in
              let (a, i', runs, drawn) =
                draw_loop-ok fuel r size (i + 1) (k - 1) (omega arith) h' in
              (a, i', rw avoided runs, drawn)
        ]
      ]

  -- The range at `a` lies in the region, a number of pages behind its start, and is free: outside the alias and the heap region,
  -- unmapped with its guard, and clear of every reservation.
  pub record IsFound (r : MemRegion) (size guard a : ℕ) : Type 0 where
    pub from_start : r.start ≤ a
    pub to_end : a + size ≤ r.end
    pub whole_pages : (n : ℕ) × (a ≡ add64 r.start (n * 2 ^ 12))
    pub out_of_alias : IsApart v.alias_region a (a + size)
    pub out_of_heap : IsApart v.heap_region a (a + size)
    -- The kernel's answer for the address of the guard is a free range that goes on to its end.
    pub unmapped :
        (m : MemoryInfo) × (query (sub64 a guard) ≡ value m)
        × (m.unmapped ≡ true)
        × (add64 (a + size) guard ≤ add64 m.addr m.size)
    pub unreserved :
        (h : ℕ)
        → IsListed v.nodes v.reservations h
        → IsApart (v.nodes h).region (sub64 a guard) (add64 (a + size) guard)

  draw_bounds :
      (r : MemRegion) (size j : ℕ)
      → r.start ≤ r.end
      → r.end < 2 ^ 64
      → size ≤ r.end - r.start
      → (r.start ≤ draw rng query v r size j)
        × (draw rng query v r size j + size ≤ r.end)
        × (add64 (draw rng query v r size j) size ≡ draw rng query v r size j + size)
  draw_bounds r size j le lt room =
      let pages = sub64 (sub64 r.end r.start) size / 2 ^ 12 + 1 in
      let few : rng j % pages < pages = mod-lt (rng j) (omega arith) in
      room_lem r.start r.end size (rng j % pages) le lt room few

  -- A range that is not taken.
  is_taken-false :
      (fuel size guard a : ℕ)
      → is_taken rng query v fuel size guard a ≡ ok false
      → (memregion_is_mapped query a (add64 a size) guard ≡ ok false)
        × (memregion_is_reserved fuel v a (add64 a size) guard ≡ ok false)
  unfolding is_taken
  is_taken-false fuel size guard a h = ground arith

  overlaps_of :
      (a size : ℕ)
      → add64 a size ≡ a + size
      → is_avoided rng query v size a ≡ false
      → (memregion_overlaps v.alias_region a (a + size) ≡ false)
        × (memregion_overlaps v.heap_region a (a + size) ≡ false)
  overlaps_of a size fits out = ground arith

  room_of :
      (r : MemRegion) (size : ℕ)
      → r.start ≤ r.end
      → r.end < 2 ^ 64
      → ltb (sub64 r.end r.start) size ≡ false
      → size ≤ r.end - r.start
  room_of r size le lt h = ground arith

  IsFound-of :
      (fuel : ℕ) (r : MemRegion) (size guard a : ℕ)
      → r.start ≤ r.end
      → r.end < 2 ^ 64
      → size ≤ r.end - r.start
      → ((b : ℕ) → (m : MemoryInfo) × (query b ≡ value m))
      → IsDrawn r size a
      → is_taken rng query v fuel size guard a ≡ ok false
      → IsFound r size guard a
  unfolding IsDrawn memregion_is_reserved
  IsFound-of fuel r size guard a le lt room answers ((j, e), out) free =
      let (above, below, fits) = draw_bounds r size j le lt room in
      let fits' : add64 a size ≡ a + size =
        ap (λ x. add64 x size) e ∙ fits ∙ ap (λ x. x + size) (sym e) in
      let (mapped, reserved) = is_taken-false fuel size guard a free in
      let apart = overlaps_of a size fits' out in
      record {
        from_start = rw e above;
        to_end = rw e below;
        whole_pages = (rng j % (sub64 (sub64 r.end r.start) size / 2 ^ 12 + 1), e);
        out_of_alias = IsApart-of v.alias_region a (a + size) apart.0;
        out_of_heap = IsApart-of v.heap_region a (a + size) apart.1;
        unmapped =
            let (m, answer) = answers (sub64 a guard) in
            let not_mapped = sym (ap (λ x. memregion_is_mapped query a x guard) fits') ∙ mapped in
            let (is_free, to_end) = free_answer query a (a + size) guard m answer not_mapped in
            (m, answer, is_free, to_end);
        unreserved = λ h listed.
            IsApart-of (v.nodes h).region (sub64 a guard) (add64 (a + size) guard) (
              reserved_loop-IsListed v.nodes fuel v.reservations (sub64 a guard)
                (add64 (a + size) guard) h
                (sym (ap (λ x. memregion_is_reserved fuel v a x guard) fits') ∙ reserved) listed);
      }

  -- The ranges that a caller can get.
  unfoldable pub IsAnswer : MemRegion → ℕ → ℕ → Option ℕ → Type 0
  IsAnswer r size guard none = Unit
  IsAnswer r size guard (some a) = IsFound r size guard a

  attempt_loop-ok :
      (fuel attempts : ℕ) (r : MemRegion) (size guard i : ℕ)
      → ((a : ℕ) → (b : Bool) × (is_taken rng query v fuel size guard a ≡ ok b))
      → ((j : ℕ) → HasDraw fuel r size j)
      → ((a : ℕ)
          → IsDrawn r size a
          → is_taken rng query v fuel size guard a ≡ ok false
          → IsFound r size guard a)
      → (o : Option ℕ) × (attempt_loop rng query v fuel attempts r size guard i ≡ ok o)
        × IsAnswer r size guard o
  unfolding attempt_loop HasDraw IsAnswer
  attempt_loop-ok fuel zero r size guard i asked draws found = (none, refl, tt)
  attempt_loop-ok fuel (suc n) r size guard i asked draws found =
      let (k, le, out) = draws i in
      let (a, i', runs, drawn) = draw_loop-ok fuel r size i k le out in
      let (rest, runs', answer) = attempt_loop-ok fuel n r size guard i' asked draws found in
      let (taken, asks) = asked a in
      elim (Bool-cases taken) [
        | inl h ↦ (rest, rw (runs, asks, h) runs', answer)
        | inr h ↦ (some a, rw (runs, asks, h) refl, found a drawn (asks ∙ ap ok h))
      ]

  memregion_is_mapped-ok :
      (start end guard : ℕ)
      → ((b : ℕ) → (m : MemoryInfo) × (query b ≡ value m))
      → (b : Bool) × (memregion_is_mapped query start end guard ≡ ok b)
  unfolding memregion_is_mapped
  memregion_is_mapped-ok start end guard answers =
      let (m, answer) = answers (sub64 start guard) in
      (
        not m.unmapped || ltb (add64 m.addr m.size) (add64 end guard),
        rw (answer, memregion_is_mapped) refl,
      )

  is_taken-ok :
      (fuel size guard a : ℕ)
      → ((b : ℕ) → (m : MemoryInfo) × (query b ≡ value m))
      → Ends v.nodes fuel v.reservations
      → (b : Bool) × (is_taken rng query v fuel size guard a ≡ ok b)
  unfolding is_taken memregion_is_reserved
  is_taken-ok fuel size guard a answers ends =
      let (mapped, runs) = memregion_is_mapped-ok a (add64 a size) guard answers in
      let (b, runs') =
        reserved_loop-ok v.nodes fuel v.reservations (sub64 a guard) (add64 (add64 a size) guard)
          ends in
      elim (Bool-cases mapped) [
        | inl h ↦ (true, rw (runs, h) refl)
        | inr h ↦ (b, rw (runs, h) runs')
      ]

  pub memregion_find_random-IsAnswer :
      (fuel : ℕ) (r : MemRegion) (size guard i : ℕ)
      → r.start ≤ r.end
      → r.end < 2 ^ 64
      → ((b : ℕ) → (m : MemoryInfo) × (query b ≡ value m))
      → Ends v.nodes fuel v.reservations
      → ((j : ℕ) → HasDraw fuel r (page_align size) j)
      → (o : Option ℕ) × (memregion_find_random rng query v fuel r size guard i ≡ ok o)
        × IsAnswer r (page_align size) (page_align guard) o
  unfolding memregion_find_random IsAnswer
  memregion_find_random-IsAnswer fuel r size guard i le lt answers ends draws =
      elim (Bool-cases (ltb (sub64 r.end r.start) (page_align size))) [
        | inl h ↦ (none, rw h refl, tt)
        | inr h ↦
            let room = room_of r (page_align size) le lt h in
            let (o, runs, answer) =
              attempt_loop-ok fuel random_max_attempts r (page_align size) (page_align guard) i
                (λ a. is_taken-ok fuel (page_align size) (page_align guard) a answers ends) draws
                (λ a drawn free.
                  IsFound-of fuel r (page_align size) (page_align guard) a le lt room answers drawn
                    free) in
            (o, rw h runs, answer)
      ]
