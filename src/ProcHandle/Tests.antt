-- ===== src/ProcHandle/Tests.antt =====
-- The two threads of src/lib/util/sys/cur_proc_handle.cpp with a concrete kernel.
use zeldar.Base.{
  ℕ, ◌<◌, ◌≡◌, ◌⊎◌, refl, arith, Bool, true, false, ◌==◌, if◌then◌else◌, List, [], ◌∷◌, replicate,
}
use zeldar.ProcHandle.{
  Kernel, State, Moved, to, main_step, worker_step, Step, by_main, by_worker, Run, here, next,
  returned, exited,
}
use zeldar.ProcHandle.Kept.{IsAnswering}
use zeldar.ProcHandle.Runs.{start, get-returned}

-- The kernel puts the handle 9 in place of the one that is to be copied.
abbrev deliver : List ℕ → List ℕ
deliver (header ∷ special ∷ count ∷ copied ∷ rest) = header ∷ special ∷ count ∷ 9 ∷ rest
deliver words = words

abbrev kernel : Kernel
kernel = record {
  get_info_result = 0xf001;
  get_info_value = 0;
  create_session_result = 0;
  server = 5;
  client = 6;
  create_thread_result = 0;
  thread = 7;
  start_thread_result = 0;
  refuses = false;
  receive_result = 0;
  deliver = deliver;
  wait_result = 0;
}

abbrev one_open : ℕ → Bool
one_open h = h == 3

kernel-IsAnswering : IsAnswering kernel one_open
kernel-IsAnswering = ground arith

abbrev first_call : State
first_call = start one_open (replicate 4 1) (replicate 4 2)

moved : State → Moved → State
moved s (to t) = t
moved s m = s

-- The state after statements of the main thread (`true`) and of the other one, the last one first.
abbrev schedule : List Bool → State
schedule [] = first_call
schedule (b ∷ bs) =
    let s = schedule bs in
    if b
    then moved s (main_step kernel s.main s.worker s.shared)
    else moved s (worker_step kernel s.main s.worker s.shared)

-- The message is sent, the second thread receives it and closes the session, the first thread
-- returns from the request while the second one ends, and waits for it.
abbrev order : List Bool
order =
    true ∷ true ∷ true ∷ false ∷ true ∷ false ∷ false ∷ false ∷ false ∷ true ∷ true ∷ true ∷ true
    ∷ true ∷ true ∷ []

order-Run : Run kernel first_call 15 (schedule order)
unfolding main_step worker_step moved
order-Run =
    next
      (next
        (next
          (next
            (next
              (next
                (next
                  (next
                    (next
                      (next
                        (next
                          (next
                            (next (next (next here (by_main refl)) (by_main refl)) (by_main refl))
                            (by_main refl))
                          (by_main refl))
                        (by_main refl))
                      (by_worker refl))
                    (by_worker refl))
                  (by_worker refl))
                (by_worker refl))
              (by_main refl))
            (by_worker refl))
          (by_main refl))
        (by_main refl))
      (by_main refl)

get-returned_example :
    ((15 < 15) × ((u : State) × Step kernel (schedule order) u))
    ⊎ ((◌≡◌ {A = ℕ} 15 15)
        × ((schedule order).main ≡ returned)
        × ((schedule order).worker ≡ exited)
        × ((schedule order).shared.handle ≡ 9)
        × ((h : ℕ) → (schedule order).shared.table h ≡ (if h == 9 then true else one_open h)))
get-returned_example =
    get-returned kernel one_open kernel-IsAnswering (replicate 4 1) (replicate 4 2) 15
      (schedule order) order-Run
