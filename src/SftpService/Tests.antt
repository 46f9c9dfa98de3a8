-- ===== src/SftpService/Tests.antt =====
-- core/sftp_service.rs: runs, and the theorems at concrete data.
use titan_ssh.Common.{
  ℕ, ◌≡◌, refl, true, false, List, [], ◌∷◌, none, some, Text, codes, text_eq, get, count, arith,
  beq, file_name, parent,
}
use titan_ssh.Errors.{sftp_read_error, Result, ok}
use titan_ssh.TransferPool.{system}
use titan_ssh.SftpService.Connection.{idle, ready, connect_eager}
use titan_ssh.SftpService.Attempts as Attempts
use titan_ssh.SftpService.Control as Control
use titan_ssh.SftpService.Models.{download, pending}
use titan_ssh.SftpService.Registry.{
  new, register_session_with_verifier, commit_download, check_download, occupies, new_task,
  file_name_or, is_cancelled,
}
use titan_ssh.SftpService.Owners.{IsSound}
use titan_ssh.SftpService.Sound.{Reach-new-IsSound}
use titan_ssh.SftpService.Targets.{commit_download_duplicates}
use titan_ssh.SftpService.Worker as Worker
use titan_ssh.SftpService.Kept.{IsSingle}
use titan_ssh.SftpService.Worker.{run_worker}
use titan_ssh.SftpService.Running.{Has}
use titan_ssh.SftpService.Verdicts.{Ends, verdict, run_worker-Ends}
use titan_ssh.SftpService.Listing.{SftpEntry, format_permissions}
use titan_ssh.SftpService.Closing.{Closed, cleanup_session-Closes}
use titan_ssh.TransferPool.{new_cyclic}
use titan_ssh.SftpService.Registry.{
  SftpHandle, register_cancel_entry, cleanup_session, register_task, with_handle,
}
use titan_ssh.SftpService.Connection.{connect_eager, idle}
use titan_ssh.SftpService.Samples.{session, first_id, second_id, local, opened, asked, asked_Reach}

Reach-new-IsSound_example : IsSound asked.tasks asked.handles
Reach-new-IsSound_example = Reach-new-IsSound system 60000 asked asked_Reach

-- The directory is there.
free_local : check_download (λ path. true) session local opened ≡ ok tt
unfolding check_download new register_session_with_verifier file_name parent beq
free_local = refl

unknown : (id : Text) → get id opened.tasks ≡ none
unfolding new register_session_with_verifier
unknown id = refl

commit_download_duplicates_example :
    let t = (commit_download (ok 10) first_id 5 session local local opened).0 in
    count
      (occupies session download local)
      (commit_download (ok 12) second_id 6 session local local t).0.tasks
    ≡ 2
commit_download_duplicates_example =
    commit_download_duplicates (λ path. true) session local local local first_id second_id 10 12 5 6
      opened free_local (unknown first_id) (unknown second_id) (λ e. ground arith)

asked-IsSingle : IsSingle asked.tasks
asked-IsSingle = (Reach-new-IsSound system 60000 asked asked_Reach).single

asked_first :
    get first_id asked.tasks
    ≡ some (new_task download first_id session local local (file_name_or local) 10 5)
unfolding commit_download new register_session_with_verifier beq
asked_first = refl

asked_pending : Has first_id pending asked
unfolding new_task
asked_pending =
    (new_task download first_id session local local (file_name_or local) 10 5, asked_first, refl)

abbrev asked_handle : SftpHandle
asked_handle =
    (register_cancel_entry first_id (record {
      control = (connect_eager idle).0;
      transfer_pool = new_cyclic system 60000;
      cancel_tokens = [];
      enqueue_seq = 0;
    })).0

asked_registered : get session asked.handles ≡ some asked_handle
unfolding commit_download new register_session_with_verifier register_task with_handle beq
asked_registered = refl

cleanup_session-Closes_example :
    Closed session first_id asked_handle
      (new_task download first_id session local local (file_name_or local) 10 5)
      asked
      (cleanup_session session asked).0
cleanup_session-Closes_example =
    cleanup_session-Closes session first_id asked_handle
      (new_task download first_id session local local (file_name_or local) 10 5) asked
      (Reach-new-IsSound system 60000 asked asked_Reach) asked_registered asked_first

-- The connection is lost in the middle of the transfer.
run_worker-Ends_example :
    let outcome = Worker.returned (Worker.failed (sftp_read_error [])) in
    let checkout = Worker.returned (Worker.delivered (record { seq = 0; transport = 7 })) in
    Ends first_id session
      (verdict (is_cancelled first_id asked) checkout Worker.granted outcome)
      asked
      (run_worker first_id session checkout Worker.granted outcome 9 asked)
run_worker-Ends_example =
    run_worker-Ends first_id session
      (Worker.returned (Worker.delivered (record { seq = 0; transport = 7 }))) Worker.granted
      (Worker.returned (Worker.failed (sftp_read_error []))) 9 asked asked-IsSingle asked_pending

abbrev attempt : Attempts.World
attempt = record {
  state = (connect_eager idle).0;
  attempts = Attempts.started (connect_eager idle).1 0;
}

Reach-Counts_example : Attempts.Counts attempt.state attempt.attempts
Reach-Counts_example =
    Attempts.Reach-Counts attempt
      (Attempts.next Attempts.here (Attempts.eager (record { state = idle; attempts = 0 })))

Trace-Asked_example :
    Control.Asked
      (Control.run_control_op {A = ℕ} (ok 7) (ok 3) (Control.getting true) (ready 7)).1
      []
Trace-Asked_example = Control.Trace-Asked (Control.steps (ok 7) (ok 3) (ready 7) Control.starts)

permissions_shown : format_permissions 493 ≡ codes "rwxr-xr-x"
unfolding format_permissions codes
permissions_shown = refl

abbrev listed : Result (List SftpEntry)
listed = ok (
    record { path = 102 ∷ []; is_dir = false; size = 3; modified_at = 0; permissions = some 420 }
    ∷ record { path = 100 ∷ []; is_dir = true; size = 0; modified_at = 0; permissions = none }
    ∷ [])
