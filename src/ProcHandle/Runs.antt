-- ===== src/ProcHandle/Runs.antt =====
-- That every order of the two threads of src/lib/util/sys/cur_proc_handle.cpp comes to the same end.
use zeldar.Base.{
  ℕ, zero, suc, ◌<◌, ◌+◌, ◌≡◌, ◌⊎◌, inl, inr, refl, ap, ap₂, ◌∙◌, arith, Bool, true, false, ◌==◌,
  if◌then◌else◌, List,
}
use mathlib.Core.Path.{subst}
use zeldar.ProcHandle.{
  Kernel, MainPc, WorkerPc, Shared, State, Moved, to, blocked, stopped, state, invalid_handle,
  main_step, worker_step, Step, by_main, by_worker, Run, here, next, check, get_via_mesosphere,
  create_session, create_thread, start_thread, send, sending, close_client, wait, close_thread,
  returned, absent, reply_and_receive, set_handle, close_session, exit_thread, exited,
}
use zeldar.ProcHandle.Kept.{
  IsAnswering, IsKept, Keeps, own_handle, is_open, has_set, main_step-Keeps, worker_step-Keeps,
}

-- The first call of `Get`.
abbrev pub start : (table : ℕ → Bool) (main_tls worker_tls : List ℕ) → State
start table main_tls worker_tls = state check absent (record {
  handle = invalid_handle;
  table = table;
  main_tls = main_tls;
  worker_tls = worker_tls;
  pending = false;
})

-- How many statements are left.
abbrev main_left : MainPc → ℕ
main_left check = 10
main_left get_via_mesosphere = 9
main_left create_session = 8
main_left create_thread = 7
main_left start_thread = 6
main_left send = 5
main_left sending = 4
main_left close_client = 3
main_left wait = 2
main_left close_thread = 1
main_left returned = 0

abbrev worker_left : WorkerPc → ℕ
worker_left reply_and_receive = 4
worker_left set_handle = 3
worker_left close_session = 2
worker_left exit_thread = 1
worker_left exited = 0
worker_left w = 5

abbrev left : State → ℕ
left t = main_left t.main + worker_left t.worker

-- A statement is one less.
abbrev Counts : ℕ → Moved → Type 0
Counts n (to t) = left t + 1 ≡ n
Counts n m = Unit

abbrev CanMove : Moved → Type 0
CanMove (to t) = Unit
CanMove m = ⊥

moved_lem : (m : Moved) → CanMove m → (t : State) × (m ≡ to t)
moved_lem (to t) h = (t, refl)
moved_lem blocked h = absurd h
moved_lem (stopped r) h = absurd h

module _ (k : Kernel) (table : ℕ → Bool) (answers : IsAnswering k table) where
  main_step-Counts :
      (m : MainPc) (w : WorkerPc) (s : Shared)
      → IsKept k table m w s
      → Counts (main_left m + worker_left w) (main_step k m w s)
  unfolding main_step
  main_step-Counts m w s kept = grind (arith, answers)

  worker_step-Counts :
      (m : MainPc) (w : WorkerPc) (s : Shared)
      → IsKept k table m w s
      → Counts (main_left m + worker_left w) (worker_step k m w s)
  unfolding worker_step
  worker_step-Counts m w s kept = grind (arith, answers)

  -- One of the two threads can go on, up to the end.
  progress :
      (m : MainPc) (w : WorkerPc) (s : Shared)
      → IsKept k table m w s
      → CanMove (main_step k m w s)
        ⊎ CanMove (worker_step k m w s)
        ⊎ ((m ≡ returned) × (w ≡ exited))
  unfolding main_step worker_step
  progress m w s kept = grind (arith, answers)

  Step-IsKept :
      (s t : State)
      → IsKept k table s.main s.worker s.shared
      → Step k s t
      → IsKept k table t.main t.worker t.shared × (left t + 1 ≡ left s)
  Step-IsKept s t kept (by_main e) = (
    subst (Keeps k table) e (main_step-Keeps k table answers s.main s.worker s.shared kept),
    subst (Counts (left s)) e (main_step-Counts s.main s.worker s.shared kept),
  )
  Step-IsKept s t kept (by_worker e) = (
    subst (Keeps k table) e (worker_step-Keeps k table answers s.main s.worker s.shared kept),
    subst (Counts (left s)) e (worker_step-Counts s.main s.worker s.shared kept),
  )

  Run-IsKept :
      (s t : State) (n : ℕ)
      → IsKept k table s.main s.worker s.shared
      → Run k s n t
      → IsKept k table t.main t.worker t.shared × (n + left t ≡ left s)
  Run-IsKept s t zero kept here = (kept, omega arith)
  Run-IsKept s u (suc n) kept (next {t} r st) =
      let (before, counted) = Run-IsKept s t n kept r in
      let (after, one) = Step-IsKept t u before st in (after, omega (arith, counted, one))

  start-IsKept :
      (main_tls worker_tls : List ℕ)
      → let s = start table main_tls worker_tls in IsKept k table s.main s.worker s.shared
  start-IsKept main_tls worker_tls = grind (arith, answers)

  open_at_end :
      (h : ℕ) → is_open k table returned exited h ≡ (if h == own_handle k then true else table h)
  open_at_end h = ground (arith, answers)

  -- With a kernel that does not know the request for the handle and grants every other one with new
  -- handles, whatever the order of the statements of the two threads: after fewer than 15 statements
  -- one of the threads can go on, and after the 15th, which is the last, `Get` is to return, its
  -- second thread has ended, `s_Handle` is the handle that came with the message, and this handle is
  -- open, and every other handle is open exactly if it was at the start.
  pub get-returned :
      (main_tls worker_tls : List ℕ) (n : ℕ) (t : State)
      → Run k (start table main_tls worker_tls) n t
      → ((n < 15) × ((u : State) × Step k t u))
        ⊎ ((n ≡ 15)
            × (t.main ≡ returned)
            × (t.worker ≡ exited)
            × (t.shared.handle ≡ own_handle k)
            × ((h : ℕ) → t.shared.table h ≡ (if h == own_handle k then true else table h)))
  get-returned main_tls worker_tls n t r =
      let (kept, counted) =
        Run-IsKept (start table main_tls worker_tls) t n (start-IsKept main_tls worker_tls) r in
      elim (progress t.main t.worker t.shared kept) [
        | inl can ↦
            let (u, e) = moved_lem (main_step k t.main t.worker t.shared) can in
            let (_, one) = Step-IsKept t u kept (by_main e) in
            inl (omega (arith, counted, one), (u, by_main e))
        | inr (inl can) ↦
            let (u, e) = moved_lem (worker_step k t.main t.worker t.shared) can in
            let (_, one) = Step-IsKept t u kept (by_worker e) in
            inl (omega (arith, counted, one), (u, by_worker e))
        | inr (inr (at_end, ended)) ↦
            let none_left = ap main_left at_end in
            let none_left' = ap worker_left ended in
            inr (
              omega (arith, counted, none_left, none_left'),
              at_end,
              ended,
              kept.set (ap has_set ended),
              λ h. kept.handles h ∙ ap₂ (λ m w. is_open k table m w h) at_end ended ∙ open_at_end h,
            )
      ]
