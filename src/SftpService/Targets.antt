-- ===== src/SftpService/Targets.antt =====
-- `enqueue_download` and `enqueue_upload` of core/sftp_service.rs: two unfinished tasks with the
-- same target.
use titan_ssh.Common.{
  ℕ, suc, ◌≤◌, ◌≡◌, ◌≢◌, refl, ◌∙◌, ap, Bool, false, [], ◌∷◌, none, Text, text_eq, if◌then◌else◌,
  any, count, get, insert, arith, beq_iff, get-insert,
}
use titan_ssh.Errors.{ok}
use titan_ssh.SftpService.Models.{
  TransferType, download, type_eq, type_beq, TransferTask, is_terminal,
}
use titan_ssh.SftpService.Registry.{
  SftpService, SftpHandle, handle, occupies, check_free, check_download, commit_download,
  register_task, new_task, file_name_or, register_cancel_entry,
}
use titan_ssh.SftpService.Steps.{with_handle_frame}
use titan_ssh.SftpService.Owners.{Tasks}

-- No two unfinished tasks of a session write to the same target in the same direction.
abbrev pub IsExclusive : SftpService → Type 0
IsExclusive s =
    (session_id : Text) (kind : TransferType) (target : Text)
    → count (occupies session_id kind target) s.tasks ≤ 1

register-tasks :
    (task : TransferTask) (s : SftpService)
    → (register_task task s).tasks ≡ insert task.task_id task s.tasks
unfolding register_task
register-tasks task s =
    (with_handle_frame task.session_id
      (λ (h : SftpHandle). (register_cancel_entry task.task_id h).0)
      (record s { tasks = insert task.task_id task s.tasks })).0

count-insert :
    (p : Text × TransferTask → Bool) (id : Text) (task : TransferTask) (m : Tasks)
    → get id m ≡ none
    → count p (insert id task m) ≡ (if p (id, task) then suc (count p m) else count p m)
count-insert p id task [] h = refl
count-insert p id task ((j, w) ∷ m) h = ground (arith, count-insert p id task m)

count_of_any : (p : Text × TransferTask → Bool) (m : Tasks) → any p m ≡ false → count p m ≡ 0
count_of_any p [] h = refl
count_of_any p (x ∷ m) h = ground (arith, count_of_any p m)

check_free-ok :
    (session_id : Text) (kind : TransferType) (target : Text) (s : SftpService)
    → check_free session_id kind target s ≡ ok tt
    → any (occupies session_id kind target) s.tasks ≡ false
unfolding check_free
check_free-ok session_id kind target s h = ground arith

check_download-ok :
    (exists : Text → Bool) (session_id local_path : Text) (s : SftpService)
    → check_download exists session_id local_path s ≡ ok tt
    → any (occupies session_id download local_path) s.tasks ≡ false
unfolding check_download check_free handle
check_download-ok exists session_id local_path s h = ground arith

-- Two downloads to one file that are asked for at the same time: both pass the check, since neither is registered while the other asks the server for the size. Both are then accepted, and the session has two unfinished tasks that write to the same target.
pub commit_download_duplicates :
    (exists : Text → Bool) (session_id local_path first second : Text) (i j : Text)
    (m n now later : ℕ) (s : SftpService)
    → check_download exists session_id local_path s ≡ ok tt
    → get i s.tasks ≡ none
    → get j s.tasks ≡ none
    → i ≢ j
    → let t = (commit_download (ok m) i now session_id first local_path s).0 in
      count
        (occupies session_id download local_path)
        (commit_download (ok n) j later session_id second local_path t).0.tasks
      ≡ 2
unfolding commit_download new_task is_terminal type_beq
commit_download_duplicates exists session_id local_path first second i j m n now later s free fi fj
      d =
    let p = occupies session_id download local_path in
    let one = new_task download i session_id first local_path (file_name_or first) m now in
    let two = new_task download j session_id second local_path (file_name_or second) n later in
    let t = register_task one s in
    let z = count_of_any p s.tasks (check_download-ok exists session_id local_path s free) in
    let a : count p t.tasks ≡ 1 =
      ap (count p) (register-tasks one s)
      ∙ count-insert p i one s.tasks fi
      ∙ (ground (arith, beq_iff session_id session_id, beq_iff local_path local_path)) in
    let g : get j t.tasks ≡ none =
      ap (get j) (register-tasks one s)
      ∙ get-insert i j one s.tasks
      ∙ (ground (arith, beq_iff i j)) in
    ap (count p) (register-tasks two t)
    ∙ count-insert p j two t.tasks g
    ∙ (ground (arith, beq_iff session_id session_id, beq_iff local_path local_path))
