-- ===== src/ProcHandle.antt =====
-- The handle of our own process, src/lib/util/sys/cur_proc_handle.cpp: `Get` asks the kernel, and where
-- that fails sends a message with the handle to a thread of its own. Two threads share `s_Handle` and
-- the table of handles; a step is one statement of one of them, and which of them goes first is open.
pub mod Kept
pub mod Runs
mod Tests
use zeldar.Base.{
  ℕ, zero, suc, ◌≡◌, ◌+◌, ◌%◌, ◌^◌, Bool, true, false, Option, none, some, List, [], ◌∷◌, ◌==◌,
  ◌&&◌, not, if◌then◌else◌, get_or, replicate, u32,
}

abbrev pub invalid_handle : ℕ
invalid_handle = 0

abbrev pub cur_process_handle : ℕ
cur_process_handle = 0xffff8001

-- What the kernel answers: results, the handles that it gives out, and what the words of a request are
-- when they arrive at the receiver.
pub record Kernel : Type 0 where
  pub get_info_result : ℕ
  pub get_info_value : ℕ
  pub create_session_result : ℕ
  pub server : ℕ
  pub client : ℕ
  pub create_thread_result : ℕ
  pub thread : ℕ
  pub start_thread_result : ℕ
  -- Whether `svcSendSyncRequest` refuses the request at once.
  pub refuses : Bool
  pub receive_result : ℕ
  pub deliver : List ℕ → List ℕ
  pub wait_result : ℕ

-- Where the thread that calls `Get` stands: before the statement of this name, and `sending` inside
-- `svcSendSyncRequest`.
pub data MainPc : Type 0 where
  check get_via_mesosphere create_session create_thread start_thread send sending close_client wait
        close_thread returned :
      MainPc

-- Where the thread of `ReceiveProcessHandleThreadMain` stands: not created, created, or before the
-- statement of this name.
pub data WorkerPc : Type 0 where
  absent created clear_tls reply_and_receive set_handle close_session exit_thread exited : WorkerPc

pub record Shared : Type 0 where
  -- `s_Handle`.
  pub handle : ℕ
  -- Whether a handle is open.
  pub table : ℕ → Bool
  pub main_tls : List ℕ
  pub worker_tls : List ℕ
  -- A request of the client that the server has not received.
  pub pending : Bool

pub record State : Type 0 where
  pub main : MainPc
  pub worker : WorkerPc
  pub shared : Shared

-- A statement is done, or has to wait for the other thread, or aborts the process with a result.
pub data Moved : Type 0 where
  to : State → Moved
  blocked : Moved
  stopped : ℕ → Moved

abbrev pub state : MainPc → WorkerPc → Shared → State
state m w s = record { main = m; worker = w; shared = s }

abbrev pub set_open : ℕ → Bool → (ℕ → Bool) → ℕ → Bool
set_open a b table h = if h == a then b else table h

-- `R_ABORT_UNLESS(result)` before the next statement.
abbrev pub unless_failed : ℕ → State → Moved
unless_failed r t = if r == 0 then to t else stopped r

-- `SendProcessHandleMessage`.
abbrev pub send_process_handle_message : List ℕ
send_process_handle_message = 0x00000000 ∷ 0x80000000 ∷ 0x00000002 ∷ cur_process_handle ∷ []

-- `Get` and `GetViaIpcTrick`. `svcSendSyncRequest` comes back when the server is closed, and its
-- result is not looked at.
unfoldable pub main_step : Kernel → MainPc → WorkerPc → Shared → Moved
main_step k check w s =
    if s.handle == invalid_handle
    then to (state get_via_mesosphere w s)
    else to (state returned w s)
main_step k get_via_mesosphere w s =
    let s' = record s { handle = u32 k.get_info_value } in
    if k.get_info_result == 0 then to (state returned w s') else to (state create_session w s')
main_step k create_session w s = unless_failed k.create_session_result (
    state create_thread w
      (record s { table = set_open k.client true (set_open k.server true s.table) }))
main_step k create_thread w s =
    unless_failed k.create_thread_result
      (state start_thread created (record s { table = set_open k.thread true s.table }))
main_step k start_thread w s = unless_failed k.start_thread_result (state send clear_tls s)
main_step k send w s =
    let s' = record s { main_tls = send_process_handle_message } in
    if k.refuses
    then to (state close_client w s')
    else to (state sending w (record s' { pending = true }))
main_step k sending w s = if s.table k.server then blocked else to (state close_client w s)
main_step k close_client w s =
    to (state wait w (record s { table = set_open k.client false s.table }))
main_step k wait exited s = unless_failed k.wait_result (state close_thread exited s)
main_step k wait w s = blocked
main_step k close_thread w s =
    to (state returned w (record s { table = set_open k.thread false s.table }))
main_step k returned w s = blocked

-- What `svcReplyAndReceive` returns when the client has been closed.
abbrev pub session_closed : ℕ
session_closed = 0xf601

-- `ReceiveProcessHandleThreadMain`. A received request brings a handle, which is open from then on.
unfoldable pub worker_step : Kernel → MainPc → WorkerPc → Shared → Moved
worker_step k m absent s = blocked
worker_step k m created s = blocked
worker_step k m clear_tls s =
    to (state m reply_and_receive (record s { worker_tls = replicate 4 0 }))
worker_step k m reply_and_receive s =
    let words = k.deliver s.main_tls in
    if s.pending
    then unless_failed k.receive_result (
        state m set_handle (record s {
          worker_tls = words;
          table = set_open (get_or words 3 0) true s.table;
          pending = false;
        }))
    else if s.table k.client
    then blocked
    else stopped session_closed
worker_step k m set_handle s =
    to (state m close_session (record s { handle = get_or s.worker_tls 3 0 }))
worker_step k m close_session s =
    to (state m exit_thread (record s { table = set_open k.server false s.table }))
worker_step k m exit_thread s = to (state m exited s)
worker_step k m exited s = blocked

-- One statement of either thread.
pub data Step (k : Kernel) (s t : State) : Type 0 where
  by_main : main_step k s.main s.worker s.shared ≡ to t → Step k s t
  by_worker : worker_step k s.main s.worker s.shared ≡ to t → Step k s t

-- The states that a run gets to in a number of steps.
pub data Run (k : Kernel) (s : State) : ℕ → State → Type 0 where
  here : Run k s zero s
  next : {n : ℕ} {t u : State} → Run k s n t → Step k t u → Run k s (suc n) u
