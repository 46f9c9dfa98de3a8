-- ===== src/SftpService/Worker.antt =====
-- `spawn_transfer_task` of core/sftp_service.rs: what a worker does with the answers that it gets,
-- from the pool, from the semaphore of all transfers and from the transfer itself. Each answer is
-- an argument; the transfer is in SftpService/Transfer.
use titan_ssh.Common.{
  ℕ, Bool, true, false, not, Option, none, some, Text, codes, text_eq, if◌then◌else◌,
}
use titan_ssh.Errors.{AppError, AppErrorInfo, sftp_transfer_error, to_info}
use titan_ssh.TransferPool.{TransferCheckout, CheckoutError}
use titan_ssh.TransferPool as Pool
use titan_ssh.SftpService.Connection.{Transport, is_connection_failure}
use titan_ssh.SftpService.Models.{
  SftpTaskStatus, pending, running, TransferTask, SftpTaskStatusEvent, is_terminal, is_legal,
}
use titan_ssh.SftpService.Models as Models
use titan_ssh.SftpService.Registry.{
  SftpService, transition_task, release_transfer_connection, is_cancelled,
}

-- The end of a transfer; a cancelled one may have failed to remove its temporary file.
pub data TransferOutcome : Type 0 where
  done : TransferOutcome
  cancelled : Option AppError → TransferOutcome
  failed : AppError → TransferOutcome

-- What `spawn_blocking` gives back: the value, or the message of a thread that panicked.
pub data Joined (A : Type 0) : Type 0 where
  returned : A → Joined A
  panicked : Text → Joined A

pub data Checkout : Type 0 where
  delivered : TransferCheckout Transport → Checkout
  refused : CheckoutError → Checkout

pub data Permit : Type 0 where
  granted semaphore_closed cancelled_first : Permit

-- A failure before the transfer goes through `Running`.
unfoldable pub fail_task : Text → Text → AppError → SftpService → SftpService
fail_task task_id session_id error s =
    (transition_task task_id session_id Models.failed (some (to_info error))
      (transition_task task_id session_id running none s).0).0

unfoldable pub cancel_pending : Text → Text → SftpService → SftpService
cancel_pending task_id session_id s = (transition_task task_id session_id Models.cancelled none s).0

unfoldable pub outcome_of : Joined TransferOutcome → TransferOutcome
outcome_of (returned outcome) = outcome
outcome_of (panicked message) = failed (sftp_transfer_error message)

unfoldable pub is_healthy : Joined TransferOutcome → Bool
is_healthy (returned done) = true
is_healthy (returned (cancelled e)) = true
is_healthy (returned (failed e)) = not (is_connection_failure e)
is_healthy (panicked message) = false

unfoldable pub final_status : TransferOutcome → SftpTaskStatus
final_status done = Models.done
final_status (cancelled e) = Models.cancelled
final_status (failed e) = Models.failed

unfoldable pub final_error : TransferOutcome → Option AppErrorInfo
final_error done = none
final_error (cancelled none) = none
final_error (cancelled (some e)) = some (to_info e)
final_error (failed e) = some (to_info e)

-- Steps 4 to 6: the transfer runs, the connection is returned, the task ends.
unfoldable pub run_transfer :
    Text
    → Text
    → TransferCheckout Transport
    → Joined TransferOutcome
    → ℕ
    → SftpService
    → SftpService
unfolding outcome_of is_healthy final_status final_error
run_transfer task_id session_id checkout joined now s =
    (transition_task task_id session_id (final_status (outcome_of joined))
      (final_error (outcome_of joined))
      (release_transfer_connection session_id checkout (is_healthy joined) now
        (transition_task task_id session_id running none s).0)).0

-- Steps 2 and 3: the permit, and the last look at the token.
unfoldable pub with_permit :
    Text
    → Text
    → TransferCheckout Transport
    → Permit
    → Joined TransferOutcome
    → ℕ
    → SftpService
    → SftpService
unfolding run_transfer fail_task cancel_pending
with_permit task_id session_id checkout semaphore_closed joined now s =
    fail_task task_id session_id (sftp_transfer_error (codes "全局传输信号量已关闭"))
      (release_transfer_connection session_id checkout true now s)
with_permit task_id session_id checkout cancelled_first joined now s =
    cancel_pending task_id session_id (release_transfer_connection session_id checkout true now s)
with_permit task_id session_id checkout granted joined now s =
    if is_cancelled task_id s
    then cancel_pending task_id session_id
        (release_transfer_connection session_id checkout true now s)
    else run_transfer task_id session_id checkout joined now s

-- The whole worker, with no other thread between its steps.
unfoldable pub run_worker :
    Text → Text → Joined Checkout → Permit → Joined TransferOutcome → ℕ → SftpService → SftpService
unfolding with_permit fail_task cancel_pending
run_worker task_id session_id (panicked message) permit joined now s =
    fail_task task_id session_id (sftp_transfer_error message) s
run_worker task_id session_id (returned (refused Pool.closed)) permit joined now s = s
run_worker task_id session_id (returned (refused Pool.cancelled)) permit joined now s =
    cancel_pending task_id session_id s
run_worker task_id session_id (returned (refused (Pool.connect error))) permit joined now s =
    fail_task task_id session_id error s
run_worker task_id session_id (returned (delivered checkout)) permit joined now s =
    with_permit task_id session_id checkout permit joined now s
