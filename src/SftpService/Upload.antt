-- ===== src/SftpService/Upload.antt =====
-- `run_transfer_blocking` of core/sftp_service.rs, the branch of an upload: the temporary file and
-- the target are on the server, whose files are a map, and the source is a local file.
use titan_ssh.Common.{
  ℕ, Bool, true, false, not, ◌&&◌, List, [], Option, none, some, Text, text_eq, if◌then◌else◌,
  insert, ◌⊎◌, inl, inr,
}
use titan_ssh.Errors.{
  AppError, sftp_channel_error, sftp_open_error, sftp_write_error, sftp_target_exists,
  sftp_path_not_found, Result, ok, err,
}
use titan_ssh.SftpService.Models.{ConflictStrategy}
use titan_ssh.SftpService.Worker.{TransferOutcome, done, cancelled, failed}
use titan_ssh.SftpService.Transfer.{
  Files, exists, Round, Copied, complete, interrupted, stopped, copy, upload_temp_path,
  cleanup_upload_temp, merge_cleanup_failure, error_of, is_reject, with_intruder, move,
}

-- What the server answers: how each request fails, if it does. `intruder` is a file that somebody
-- puts at the target between the check and the rename.
pub record RemoteAnswers : Type 0 where
  pub creation : Option AppError
  pub flush : Option Text
  pub metadata : Option AppError
  pub intruder : Option (List ℕ)
  pub renaming : Option AppError
  pub removal : Option AppError

unfoldable pub is_path_not_found : AppError → Bool
is_path_not_found (sftp_path_not_found d) = true
is_path_not_found e = false

-- Whether the target is there, by `file_size`.
unfoldable pub check_target : Option AppError → Text → Files → Result Bool
unfolding is_path_not_found
check_target metadata target files = elim metadata [
  | some error ↦ if is_path_not_found error then ok false else err error
  | none ↦ ok (exists target files)
]

-- What the server does on a `rename`, by the contract of the trait `SftpOps`: without the flag it refuses
-- a target that is there, and a rename that fails changes nothing.
unfoldable pub rename : Option AppError → Bool → Text → Text → Files → Files × Result (Unit {0})
unfolding move
rename renaming replace temp target files =
    if not replace && exists target files
    then (files, err (sftp_target_exists target))
    else elim renaming [ some error ↦ (files, err error) | none ↦ (move temp target files, ok tt) ]

unfoldable pub publish_upload_file :
    RemoteAnswers → ConflictStrategy → Text → Text → Files → Files × Result (Unit {0})
unfolding check_target rename
publish_upload_file a strategy temp target files = elim (check_target a.metadata target files) [
  | err error ↦ (files, err error)
  | ok there ↦
      if there && is_reject strategy
      then (files, err (sftp_target_exists target))
      else rename a.renaming there temp target (with_intruder a.intruder target files)
]

unfoldable pub give_up_upload : RemoteAnswers → Text → AppError → Files → Files × TransferOutcome
unfolding cleanup_upload_temp merge_cleanup_failure
give_up_upload a temp primary files =
    let (rest, cleanup) = cleanup_upload_temp a.removal temp files in
    (rest, failed (merge_cleanup_failure primary cleanup))

unfoldable pub stop_upload : RemoteAnswers → Text → Files → Files × TransferOutcome
unfolding cleanup_upload_temp
stop_upload a temp files =
    let (rest, cleanup) = cleanup_upload_temp a.removal temp files in
    (rest, cancelled (error_of cleanup))

unfoldable pub settle_upload :
    RemoteAnswers → Text → Files × Result (Unit {0}) → Files × TransferOutcome
unfolding give_up_upload
settle_upload a temp (files, ok _) = (files, done)
settle_upload a temp (files, err error) = give_up_upload a temp error files

-- After the loop.
unfoldable pub finish_upload :
    RemoteAnswers
    → (ℕ → Bool)
    → ConflictStrategy
    → Text
    → Text
    → Copied
    → Files
    → Files × TransferOutcome
unfolding settle_upload publish_upload_file give_up_upload stop_upload
finish_upload a looks strategy temp target interrupted files = stop_upload a temp files
finish_upload a looks strategy temp target (stopped error) files = give_up_upload a temp error files
finish_upload a looks strategy temp target (complete k) files = elim a.flush [
  | some error ↦ give_up_upload a temp (sftp_write_error error) files
  | none ↦
      if looks k
      then stop_upload a temp files
      else settle_upload a temp (publish_upload_file a strategy temp target files)
]

-- `source` is what opening the local file gives, or the message of its failure.
unfoldable pub run_upload :
    RemoteAnswers
    → Option Text
    → Text ⊎ List Round
    → (ℕ → Bool)
    → ConflictStrategy
    → Text
    → Text
    → Files
    → Files × TransferOutcome
unfolding copy finish_upload upload_temp_path
run_upload a lock source looks strategy remote_path task_id files = elim lock [
  | some error ↦ (files, failed (sftp_channel_error error))
  | none ↦ if looks 0 then (files, cancelled none) else elim source [
    | inl message ↦ (files, failed (sftp_open_error message))
    | inr rounds ↦
        let temp = upload_temp_path remote_path task_id in
        elim a.creation [
          | some error ↦ (files, failed error)
          | none ↦
              let (copied, content) = copy looks 1 rounds [] in
              finish_upload a looks strategy temp remote_path copied (insert temp content files)
        ]
  ]
]
