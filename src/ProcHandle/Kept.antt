-- ===== src/ProcHandle/Kept.antt =====
-- What holds between the two threads of src/lib/util/sys/cur_proc_handle.cpp in every reachable state.
use zeldar.Base.{ℕ, ◌≡◌, ◌≢◌, arith, Bool, true, false, ◌==◌, if◌then◌else◌, get_or}
use zeldar.ProcHandle.{
  Kernel, MainPc, WorkerPc, Shared, Moved, to, blocked, stopped, invalid_handle,
  send_process_handle_message, main_step, worker_step, check, get_via_mesosphere, create_session,
  create_thread, start_thread, send, sending, close_client, wait, close_thread, returned, absent,
  created, clear_tls, reply_and_receive, set_handle, close_session, exit_thread, exited,
}

-- The handle that arrives at the receiver of the message.
abbrev pub own_handle : Kernel → ℕ
own_handle k = get_or (k.deliver send_process_handle_message) 3 0

-- A kernel that does not know the request for the handle, and grants every other one with new handles.
pub record IsAnswering (k : Kernel) (table : ℕ → Bool) : Type 0 where
  pub unknown : k.get_info_result ≢ 0
  pub session : k.create_session_result ≡ 0
  pub thread_created : k.create_thread_result ≡ 0
  pub thread_started : k.start_thread_result ≡ 0
  pub accepts : k.refuses ≡ false
  pub received : k.receive_result ≡ 0
  pub waited : k.wait_result ≡ 0
  pub new_server : table k.server ≡ false
  pub new_client : table k.client ≡ false
  pub new_thread : table k.thread ≡ false
  pub ends_apart : k.server ≢ k.client
  pub server_thread : k.server ≢ k.thread
  pub client_thread : k.client ≢ k.thread
  pub server_own : k.server ≢ own_handle k
  pub client_own : k.client ≢ own_handle k
  pub thread_own : k.thread ≢ own_handle k

-- Where the two threads can be at the same time, and whether the request is pending there.
abbrev pub paired : MainPc → WorkerPc → Bool → Bool
paired check absent false = true
paired get_via_mesosphere absent false = true
paired create_session absent false = true
paired create_thread absent false = true
paired start_thread created false = true
paired send clear_tls false = true
paired send reply_and_receive false = true
paired sending clear_tls true = true
paired sending reply_and_receive true = true
paired sending set_handle false = true
paired sending close_session false = true
paired sending exit_thread false = true
paired sending exited false = true
paired close_client exit_thread false = true
paired close_client exited false = true
paired wait exit_thread false = true
paired wait exited false = true
paired close_thread exited false = true
paired returned exited false = true
paired _ _ _ = false

-- Whether the ends of the session, the thread and the received handle are open.
abbrev pub server_open : MainPc → WorkerPc → Bool
server_open check w = false
server_open get_via_mesosphere w = false
server_open create_session w = false
server_open m exit_thread = false
server_open m exited = false
server_open m w = true

abbrev pub client_open : MainPc → Bool
client_open check = false
client_open get_via_mesosphere = false
client_open create_session = false
client_open wait = false
client_open close_thread = false
client_open returned = false
client_open m = true

abbrev pub thread_open : MainPc → Bool
thread_open check = false
thread_open get_via_mesosphere = false
thread_open create_session = false
thread_open create_thread = false
thread_open returned = false
thread_open m = true

abbrev pub has_arrived : WorkerPc → Bool
has_arrived set_handle = true
has_arrived close_session = true
has_arrived exit_thread = true
has_arrived exited = true
has_arrived w = false

abbrev pub has_set : WorkerPc → Bool
has_set close_session = true
has_set exit_thread = true
has_set exited = true
has_set w = false

abbrev pub is_open : Kernel → (ℕ → Bool) → MainPc → WorkerPc → ℕ → Bool
is_open k table m w h =
    if h == k.server
    then server_open m w
    else if h == k.client
    then client_open m
    else if h == k.thread
    then thread_open m
    else if h == own_handle k
    then (if has_arrived w then true else table h)
    else table h

pub record IsKept (k : Kernel) (table : ℕ → Bool) (m : MainPc) (w : WorkerPc) (s : Shared)
    : Type 0 where
  pub together : paired m w s.pending ≡ true
  pub at_check : m ≡ check → s.handle ≡ invalid_handle
  pub message : s.pending ≡ true → s.main_tls ≡ send_process_handle_message
  pub arrived : w ≡ set_handle → get_or s.worker_tls 3 0 ≡ own_handle k
  pub set : has_set w ≡ true → s.handle ≡ own_handle k
  pub handles : (h : ℕ) → s.table h ≡ is_open k table m w h

-- A statement keeps all this, and does not abort.
abbrev pub Keeps : Kernel → (ℕ → Bool) → Moved → Type 0
Keeps k table (to t) = IsKept k table t.main t.worker t.shared
Keeps k table blocked = Unit
Keeps k table (stopped r) = ⊥

module _ (k : Kernel) (table : ℕ → Bool) (answers : IsAnswering k table) where
  pub main_step-Keeps :
      (m : MainPc) (w : WorkerPc) (s : Shared)
      → IsKept k table m w s
      → Keeps k table (main_step k m w s)
  unfolding main_step
  main_step-Keeps m w s kept = grind (arith, answers)

  pub worker_step-Keeps :
      (m : MainPc) (w : WorkerPc) (s : Shared)
      → IsKept k table m w s
      → Keeps k table (worker_step k m w s)
  unfolding worker_step
  worker_step-Keeps m w s kept = grind (arith, answers)
