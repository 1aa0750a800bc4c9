-- ===== src/Hook/Machine/Runs.antt =====
-- How runs of the machine compose, and straight code.
use zeldar.Base.{
  ℕ, zero, suc, ◌+◌, ◌≡◌, refl, ap, arith, Bool, true, false, Option, none, some, List, [], ◌∷◌,
  ◌++◌, ◌&&◌, add64,
}
use zeldar.Hook.Machine.{
  Cpu, Inst, sub_sp, add_sp, stp, ldp, mov, mov_sp, ldr, stur, ldur, b, bl, blr, ret, exec, tick,
  run, Holds,
}

-- Some number of steps leads from one state to the other.
abbrev pub Reaches : (ℕ → Option Inst) → (Cpu → Cpu) → Cpu → Cpu → Type 0
Reaches fetch outside c d = (n : ℕ) × (run fetch outside n c ≡ d)

-- The instructions one after the other.
abbrev pub exec_all : List Inst → Cpu → Cpu
exec_all [] c = c
exec_all (i ∷ is) c = exec_all is (exec i c)

pub exec_all-append :
    (is js : List Inst) (c : Cpu) → exec_all (is ++ js) c ≡ exec_all js (exec_all is c)
exec_all-append [] js c = refl
exec_all-append (i ∷ is) js c = exec_all-append is js (exec i c)

-- An instruction that continues at the word behind it.
abbrev pub is_straight : Inst → Bool
is_straight (b a) = false
is_straight (bl a) = false
is_straight (blr n) = false
is_straight ret = false
is_straight _ = true

abbrev pub all_straight : List Inst → Bool
all_straight [] = true
all_straight (i ∷ is) = is_straight i && all_straight is

pub exec-straight : (i : Inst) (c : Cpu) → is_straight i ≡ true → (exec i c).pc ≡ add64 c.pc 4
unfolding exec
exec-straight (sub_sp n) c h = refl
exec-straight (add_sp n) c h = refl
exec-straight (stp t u n) c h = refl
exec-straight (ldp t u n) c h = refl
exec-straight (mov d n) c h = refl
exec-straight (mov_sp d) c h = refl
exec-straight (ldr t n k) c h = refl
exec-straight (stur t k) c h = refl
exec-straight (ldur t k) c h = refl
exec-straight (b a) c h = cc
exec-straight (bl a) c h = cc
exec-straight (blr n) c h = cc
exec-straight ret c h = cc

module _ (fetch : ℕ → Option Inst) (outside : Cpu → Cpu) where
  run-add :
      (n m : ℕ) (c : Cpu)
      → run fetch outside (n + m) c ≡ run fetch outside m (run fetch outside n c)
  unfolding run
  run-add zero m c = rw zero_add refl
    where
      zero_add : 0 + m ≡ m
      zero_add = omega arith
  run-add (suc n) m c = rw suc_add (run-add n m (tick fetch outside c))
    where
      suc_add : suc n + m ≡ suc (n + m)
      suc_add = omega arith

  pub Reaches-trans :
      (c d e : Cpu)
      → Reaches fetch outside c d
      → Reaches fetch outside d e
      → Reaches fetch outside c e
  Reaches-trans c d e (n, p) (m, q) = (n + m, rw (run-add n m c, p) q)

  pub Reaches-exec : (i : Inst) (c : Cpu) → fetch c.pc ≡ some i → Reaches fetch outside c (exec i c)
  unfolding run tick
  Reaches-exec i c h =
      (1, ap (λ (m : Option Inst). elim m as (λ _. Cpu) [ none ↦ outside c | some j ↦ exec j c ]) h)

  pub Reaches-outside : (c : Cpu) → fetch c.pc ≡ none → Reaches fetch outside c (outside c)
  unfolding run tick
  Reaches-outside c h =
      (1, ap (λ (m : Option Inst). elim m as (λ _. Cpu) [ none ↦ outside c | some j ↦ exec j c ]) h)

  -- Straight code runs to its end, and continues behind it.
  pub Reaches-exec_all :
      (is js : List Inst) (c : Cpu)
      → all_straight is ≡ true
      → Holds fetch c.pc (is ++ js)
      → Reaches fetch outside c (exec_all is c) × Holds fetch (exec_all is c).pc js
  unfolding run
  Reaches-exec_all [] js c straight h = ((0, refl), h)
  Reaches-exec_all (i ∷ is) js c straight h =
      let (first, later) : Reaches fetch outside (exec i c) (exec_all is (exec i c))
          × Holds fetch (exec_all is (exec i c)).pc js =
        Reaches-exec_all is js (exec i c) (ground arith)
          (rw (exec-straight i c (ground arith)) h.1) in
      (Reaches-trans c (exec i c) (exec_all is (exec i c)) (Reaches-exec i c h.0) first, later)
