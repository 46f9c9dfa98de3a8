-- ===== src/SftpService/Registry/Endings.antt =====
-- core/sftp_service.rs: what happens to a registered task: `cancel_task`, `transition_task`,
-- `cleanup_session`, `clear_terminal_tasks`, and the snapshot of a session.
use titan_ssh.Common.{
  ℕ, Bool, true, false, not, ◌||◌, List, [], ◌∷◌, ◌++◌, Option, none, some, Text, text_eq, nat_eq,
  ◌==◌, if◌then◌else◌, get, insert, remove, retain, leb,
}
use titan_ssh.Errors.{AppErrorInfo, sftp_task_not_found, Result, ok, err}
use titan_ssh.TransferPool as Pool
use titan_ssh.TransferPool.{TransferPool, TransferClock, TransferCheckout}
use titan_ssh.SftpService.Connection.{ConnectionState, idle, Transport, connect_eager}
use titan_ssh.SftpService.Connection as Connection
use titan_ssh.SftpService.Models.{
  type_eq, SftpTaskStatus, cancelled, TransferTask, SftpTaskStatusEvent, is_terminal, is_legal,
}
use titan_ssh.SftpService.Evictions.{evict_old_terminal_tasks}
use titan_ssh.SftpService.Registry.State.{CancelEntry, SftpHandle, SftpService, cancel, with_handle}

-- The first handle with an entry for the task.
unfoldable pub find_entry : Text → List (Text × SftpHandle) → Option (Text × CancelEntry)
find_entry task_id [] = none
find_entry task_id ((session_id, h) ∷ handles) = elim (get task_id h.cancel_tokens) [
  | some entry ↦ some (session_id, entry)
  | none ↦ find_entry task_id handles
]

unfoldable pub cancel_task : Text → SftpService → SftpService × Result (Unit {0})
unfolding find_entry cancel with_handle
cancel_task task_id s = elim (find_entry task_id s.handles) [
  | some (session_id, entry) ↦ (
    with_handle session_id
        (λ h. record h { transfer_pool = Pool.cancel_waiter entry.queue_seq h.transfer_pool })
        (cancel entry.token s),
    ok tt,
  )
  | none ↦ elim (get task_id s.tasks) [
    | none ↦ (s, err (sftp_task_not_found task_id))
    | some task ↦ (s, if is_terminal task.status then ok tt else err (sftp_task_not_found task_id))
  ]
]

-- `transition_task` under the lock of the tasks.
unfoldable pub commit_transition :
    SftpTaskStatus → Option AppErrorInfo → Text → Text → TransferTask → SftpService → SftpService
commit_transition status error task_id session_id task s =
    let tasks = insert task_id (record task { status = status; error = error }) s.tasks in
    record s {
      tasks = if is_terminal status then evict_old_terminal_tasks session_id tasks else tasks;
    }

unfoldable pub drop_token : SftpTaskStatus → Text → Text → SftpService → SftpService
unfolding with_handle
drop_token status task_id session_id s =
    if is_terminal status
    then with_handle session_id (λ h. record h { cancel_tokens = remove task_id h.cancel_tokens }) s
    else s

abbrev pub event_of : Text → Text → SftpTaskStatus → Option AppErrorInfo → SftpTaskStatusEvent
event_of task_id session_id status error = record {
  task_id = task_id;
  session_id = session_id;
  status = status;
  error = error;
}

unfoldable pub emit_status : SftpTaskStatusEvent → SftpService → SftpService
emit_status event s = record s { emitted = s.emitted ++ event ∷ [] }

unfoldable pub transition_task :
    Text → Text → SftpTaskStatus → Option AppErrorInfo → SftpService → SftpService × Bool
unfolding commit_transition drop_token emit_status
transition_task task_id session_id status error s = elim (get task_id s.tasks) [
  | none ↦ (s, false)
  | some task ↦
      if is_legal task.status status
      then (
        emit_status (event_of task_id session_id status error) (
            drop_token status task_id session_id
              (commit_transition status error task_id session_id task s)),
        true,
      )
      else (s, false)
]

abbrev pub is_active : List (Text × TransferTask) → Text × CancelEntry → Bool
is_active tasks entry = elim (get entry.0 tasks) [
  | none ↦ false
  | some task ↦ not (is_terminal task.status)
]

-- The loop over the unfinished tasks of the closed session.
unfoldable pub cancel_active : Text → List (Text × CancelEntry) → SftpService → SftpService
unfolding cancel transition_task
cancel_active session_id [] s = s
cancel_active session_id ((task_id, entry) ∷ rest) s =
    cancel_active session_id rest
      (transition_task task_id session_id cancelled none (cancel entry.token s)).0

abbrev pub is_of_session : Text → Text × TransferTask → Bool
is_of_session session_id entry = entry.1.session_id == session_id

-- The handle that is taken out is closed, control connection and pool, and nobody finds it again.
unfoldable pub close_handle : SftpHandle → SftpHandle
close_handle h = record h {
  control = Connection.close h.control;
  transfer_pool = Pool.close h.transfer_pool;
}

unfoldable pub cleanup_session : Text → SftpService → SftpService × Option SftpHandle
unfolding cancel_active close_handle
cleanup_session session_id s = elim (get session_id s.handles) [
  | none ↦ (s, none)
  | some h ↦
      let t = record s { handles = remove session_id s.handles } in
      let u = cancel_active session_id (retain (is_active s.tasks) h.cancel_tokens) t in
      (
        record u { tasks = retain (λ entry. not (is_of_session session_id entry)) u.tasks },
        some (close_handle h),
      )
]

unfoldable pub clear_terminal_tasks : Text → SftpService → SftpService
clear_terminal_tasks session_id s = record s {
  tasks =
      retain (λ entry. not (is_of_session session_id entry) || not (is_terminal entry.1.status))
        s.tasks;
}

-- The newest first; tasks of one moment stay in the order of the map.
unfoldable pub insert_task : TransferTask → List TransferTask → List TransferTask
insert_task x [] = x ∷ []
insert_task x (y ∷ ys) = if leb y.created_at x.created_at then x ∷ y ∷ ys else y ∷ insert_task x ys

unfoldable pub sort_tasks : List (Text × TransferTask) → List TransferTask
unfolding insert_task
sort_tasks [] = []
sort_tasks (entry ∷ entries) = insert_task entry.1 (sort_tasks entries)

unfoldable pub task_snapshot : Text → SftpService → List TransferTask
unfolding sort_tasks
task_snapshot session_id s = sort_tasks (retain (is_of_session session_id) s.tasks)

-- A checkout of a session that is gone is dropped.
unfoldable pub release_transfer_connection :
    Text → TransferCheckout Transport → Bool → ℕ → SftpService → SftpService
unfolding with_handle
release_transfer_connection session_id checkout healthy now =
    with_handle session_id
      (λ h. record h { transfer_pool = Pool.checkin checkout healthy now h.transfer_pool })
