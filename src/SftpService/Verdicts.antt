-- ===== src/SftpService/Verdicts.antt =====
-- `spawn_transfer_task` of core/sftp_service.rs: how a worker's task ends.
use titan_ssh.Common.{
  ℕ, Bool, true, false, ◌≡◌, refl, ◌∙◌, ap, List, [], ◌∷◌, ◌++◌, Option, none, some, Text, codes,
  text_eq, if◌then◌else◌, get,
}
use mathlib.Core.List.{append_assoc}
use titan_ssh.Errors.{AppError, AppErrorInfo, sftp_transfer_error, to_info}
use titan_ssh.TransferPool.{TransferCheckout}
use titan_ssh.TransferPool as Pool
use titan_ssh.SftpService.Connection.{Transport}
use titan_ssh.SftpService.Models.{
  SftpTaskStatus, pending, running, TransferTask, SftpTaskStatusEvent, is_terminal, is_legal,
}
use titan_ssh.SftpService.Models as Models
use titan_ssh.SftpService.Kept.{IsSingle}
use titan_ssh.SftpService.Registry.{
  SftpService, transition_task, release_transfer_connection, is_cancelled, event_of,
}
use titan_ssh.SftpService.Worker.{
  TransferOutcome, done, cancelled, failed, Joined, returned, panicked, Checkout, delivered,
  refused, Permit, granted, semaphore_closed, cancelled_first, fail_task, cancel_pending,
  outcome_of, is_healthy, final_status, final_error, run_transfer, with_permit, run_worker,
}
use titan_ssh.SftpService.Running.{Has, HasEnded, release_frame, to_running, to_end}

-- How a task ends: with a status and an error, perhaps after `Running`, or, in a closed session,
-- without a word.
pub data Verdict : Type 0 where
  silent : Verdict
  ends : Bool → SftpTaskStatus → Option AppErrorInfo → Verdict

unfoldable pub verdict : Bool → Joined Checkout → Permit → Joined TransferOutcome → Verdict
verdict raised (panicked message) permit joined =
    ends true Models.failed (some (to_info (sftp_transfer_error message)))
verdict raised (returned (refused Pool.closed)) permit joined = silent
verdict raised (returned (refused Pool.cancelled)) permit joined = ends false Models.cancelled none
verdict raised (returned (refused (Pool.connect e))) permit joined =
    ends true Models.failed (some (to_info e))
verdict raised (returned (delivered c)) semaphore_closed joined =
    ends true Models.failed (some (to_info (sftp_transfer_error (codes "全局传输信号量已关闭"))))
verdict raised (returned (delivered c)) cancelled_first joined = ends false Models.cancelled none
verdict true (returned (delivered c)) granted joined = ends false Models.cancelled none
verdict false (returned (delivered c)) granted (panicked message) =
    ends true Models.failed (some (to_info (sftp_transfer_error message)))
verdict false (returned (delivered c)) granted (returned done) = ends true Models.done none
verdict false (returned (delivered c)) granted (returned (cancelled none)) =
    ends true Models.cancelled none
verdict false (returned (delivered c)) granted (returned (cancelled (some e))) =
    ends true Models.cancelled (some (to_info e))
verdict false (returned (delivered c)) granted (returned (failed e)) =
    ends true Models.failed (some (to_info e))

unfoldable pub events_of : Text → Text → Verdict → List SftpTaskStatusEvent
events_of task_id session_id silent = []
events_of task_id session_id (ends true status error) =
    event_of task_id session_id running none ∷ event_of task_id session_id status error ∷ []
events_of task_id session_id (ends false status error) =
    event_of task_id session_id status error ∷ []

-- What a worker may say of its task.
abbrev pub Ends : Text → Text → Verdict → SftpService → SftpService → Type 0
Ends id session_id v s t =
    (t.emitted ≡ s.emitted ++ events_of id session_id v)
    × elim v [ silent ↦ t ≡ s | ends _ status error ↦ HasEnded id status error t ]

joined_events :
    (a b c : List SftpTaskStatusEvent) (x y : SftpTaskStatusEvent)
    → b ≡ a ++ x ∷ []
    → c ≡ b ++ y ∷ []
    → c ≡ a ++ x ∷ y ∷ []
joined_events a b c x y p q = q ∙ ap (λ l. l ++ y ∷ []) p ∙ append_assoc a (x ∷ []) (y ∷ [])

-- Through `Running` to the end, with a change in between that leaves tasks and events.
running_end :
    (id session_id : Text) (status : SftpTaskStatus) (error : Option AppErrorInfo)
    (s t : SftpService)
    → let r = (transition_task id session_id running none s).0 in
      IsSingle s.tasks
      → Has id pending s
      → is_legal running status ≡ true
      → is_terminal status ≡ true
      → t.tasks ≡ r.tasks
      → t.emitted ≡ r.emitted
      → Ends id session_id
          (ends true status error)
          s
          (transition_task id session_id status error t).0
unfolding events_of
running_end id session_id status error s t single has l terminal p q =
    let (e, single', h) = to_running id session_id s single has in
    let (e', end) =
      to_end id session_id running status error t (rw p single')
        (h.0, ap (λ m. get id m) p ∙ h.1, h.2) l terminal in
    (joined_events s.emitted t.emitted _ _ _ (q ∙ e) e', end)

fail-Ends :
    (id session_id : Text) (error : AppError) (s : SftpService)
    → IsSingle s.tasks
    → Has id pending s
    → Ends id session_id
        (ends true Models.failed (some (to_info error)))
        s
        (fail_task id session_id error s)
unfolding fail_task is_legal is_terminal
fail-Ends id session_id error s single has =
    running_end id session_id Models.failed (some (to_info error)) s _ single has refl refl refl
      refl

cancel-Ends :
    (id session_id : Text) (s : SftpService)
    → IsSingle s.tasks
    → Has id pending s
    → Ends id session_id (ends false Models.cancelled none) s (cancel_pending id session_id s)
unfolding cancel_pending is_legal is_terminal events_of
cancel-Ends id session_id s single has =
    to_end id session_id pending Models.cancelled none s single has refl refl

-- A start from a state with the same tasks and events.
from_same :
    (id session_id : Text) (raised : Bool) (status : SftpTaskStatus) (error : Option AppErrorInfo)
    (s u t : SftpService)
    → u.emitted ≡ s.emitted
    → Ends id session_id (ends raised status error) u t
    → Ends id session_id (ends raised status error) s t
from_same id session_id raised status error s u t q h =
    (h.0 ∙ ap (λ es. es ++ events_of id session_id (ends raised status error)) q, h.1)

transfer-Ends :
    (id session_id : Text) (checkout : TransferCheckout Transport) (joined : Joined TransferOutcome)
    (now : ℕ) (s : SftpService)
    → IsSingle s.tasks
    → Has id pending s
    → is_legal running (final_status (outcome_of joined)) ≡ true
    → is_terminal (final_status (outcome_of joined)) ≡ true
    → Ends id session_id
        (ends true (final_status (outcome_of joined)) (final_error (outcome_of joined)))
        s
        (run_transfer id session_id checkout joined now s)
unfolding run_transfer
transfer-Ends id session_id checkout joined now s single has l terminal =
    let f =
      release_frame session_id checkout (is_healthy joined) now
        (transition_task id session_id running none s).0 in
    running_end id session_id (final_status (outcome_of joined)) (final_error (outcome_of joined)) s
      _ single has l terminal f.0 f.1

module _ (id session_id : Text) (now : ℕ) (s : SftpService) (single : IsSingle s.tasks)
    (has : Has id pending s) where
  released-fails :
      (checkout : TransferCheckout Transport) (error : AppError)
      → Ends id session_id (ends true Models.failed (some (to_info error))) s (
          fail_task id session_id error
            (release_transfer_connection session_id checkout true now s))
  released-fails checkout error =
      let f = release_frame session_id checkout true now s in
      from_same id session_id true _ _ s
        (release_transfer_connection session_id checkout true now s)
        (fail_task id session_id error (release_transfer_connection session_id checkout true now s))
        f.1
        (fail-Ends id session_id error (release_transfer_connection session_id checkout true now s)
          (rw f.0 single) (has.0, ap (λ m. get id m) f.0 ∙ has.1, has.2))

  released-cancels :
      (checkout : TransferCheckout Transport)
      → Ends id session_id (ends false Models.cancelled none) s (
          cancel_pending id session_id (release_transfer_connection session_id checkout true now s))
  released-cancels checkout =
      let f = release_frame session_id checkout true now s in
      from_same id session_id false _ _ s
        (release_transfer_connection session_id checkout true now s)
        (cancel_pending id session_id (release_transfer_connection session_id checkout true now s))
        f.1
        (cancel-Ends id session_id (release_transfer_connection session_id checkout true now s)
          (rw f.0 single) (has.0, ap (λ m. get id m) f.0 ∙ has.1, has.2))

  granted-Ends :
      (checkout : TransferCheckout Transport) (joined : Joined TransferOutcome) (raised : Bool)
      → Ends id session_id (verdict raised (returned (delivered checkout)) granted joined) s (
          if raised
          then cancel_pending id session_id
              (release_transfer_connection session_id checkout true now s)
          else run_transfer id session_id checkout joined now s)
  unfolding verdict final_status final_error outcome_of is_legal is_terminal
  granted-Ends checkout joined true = released-cancels checkout
  granted-Ends checkout (panicked message) false =
      transfer-Ends id session_id checkout (panicked message) now s single has refl refl
  granted-Ends checkout (returned done) false =
      transfer-Ends id session_id checkout (returned done) now s single has refl refl
  granted-Ends checkout (returned (cancelled none)) false =
      transfer-Ends id session_id checkout (returned (cancelled none)) now s single has refl refl
  granted-Ends checkout (returned (cancelled (some e))) false =
      transfer-Ends id session_id checkout (returned (cancelled (some e))) now s single has refl
        refl
  granted-Ends checkout (returned (failed e)) false =
      transfer-Ends id session_id checkout (returned (failed e)) now s single has refl refl

  permit-Ends :
      (checkout : TransferCheckout Transport) (permit : Permit) (joined : Joined TransferOutcome)
      → Ends id session_id
          (verdict (is_cancelled id s) (returned (delivered checkout)) permit joined)
          s
          (with_permit id session_id checkout permit joined now s)
  unfolding verdict with_permit
  permit-Ends checkout granted joined = granted-Ends checkout joined (is_cancelled id s)
  permit-Ends checkout semaphore_closed joined = released-fails checkout _
  permit-Ends checkout cancelled_first joined = released-cancels checkout

append_nil : (es : List SftpTaskStatusEvent) → es ≡ es ++ []
append_nil [] = refl
append_nil (e ∷ es) = ap (λ (l : List SftpTaskStatusEvent). e ∷ l) (append_nil es)

-- Whatever a worker is answered by the pool, the semaphore and the transfer, its pending task ends, unless its pool is closed: the front end is sent `Running`, where the transfer or a failure comes to it, and then one terminal event with the status and the error that belong to the answers, and the registry has the task with these or has it no more. In a closed pool the worker does nothing.
pub run_worker-Ends :
    (id session_id : Text) (checkout : Joined Checkout) (permit : Permit)
    (joined : Joined TransferOutcome) (now : ℕ) (s : SftpService)
    → IsSingle s.tasks
    → Has id pending s
    → Ends id session_id
        (verdict (is_cancelled id s) checkout permit joined)
        s
        (run_worker id session_id checkout permit joined now s)
unfolding run_worker verdict
run_worker-Ends id session_id (panicked message) permit joined now s single has =
    fail-Ends id session_id (sftp_transfer_error message) s single has
run_worker-Ends id session_id (returned (refused Pool.closed)) permit joined now s single has =
    (unfold events_of in append_nil s.emitted, refl)
run_worker-Ends id session_id (returned (refused Pool.cancelled)) permit joined now s single has =
    cancel-Ends id session_id s single has
run_worker-Ends id session_id (returned (refused (Pool.connect error))) permit joined now s single
      has =
    fail-Ends id session_id error s single has
run_worker-Ends id session_id (returned (delivered checkout)) permit joined now s single has =
    permit-Ends id session_id now s single has checkout permit joined
