-- ===== src/SftpService/Transfer.antt =====
-- `run_transfer_blocking` of core/sftp_service.rs, on the thread of the transfer. What the two file
-- systems answer is an argument; a file system is a map from paths to contents. The events of the
-- progress, which change nothing else, are in SftpService/Progress.
use titan_ssh.Common.{
  ℕ, suc, Bool, true, false, not, ◌&&◌, List, [], ◌∷◌, ◌++◌, Option, none, some, Text, codes,
  text_eq, ◌==◌, if◌then◌else◌, get, insert, remove, file_name, parent, join,
}
use titan_ssh.Errors.{
  AppError, sftp_channel_error, sftp_create_error, sftp_read_error, sftp_write_error,
  sftp_transfer_error, sftp_target_exists, sftp_publish_error, to_string, with_appended_detail,
  Result, ok, err,
}
use titan_ssh.SftpService.Models.{ConflictStrategy, reject, overwrite}
use titan_ssh.SftpService.Worker.{TransferOutcome, done, cancelled, failed}

abbrev pub Files : Type 0
Files = List (Text × List ℕ)

abbrev pub exists : Text → Files → Bool
exists path files = elim (get path files) [ none ↦ false | some _ ↦ true ]

-- One round of the copy: bytes that are read, at least one, with the failure of their write and what
-- it wrote all the same, or a read that fails. The end of the list is the end of the file.
pub data Round : Type 0 where
  chunk : ℕ → List ℕ → Option (Text × List ℕ) → Round
  broken : Text → Round

pub data Copied : Type 0 where
  complete : ℕ → Copied
  interrupted : Copied
  stopped : AppError → Copied

-- The loop, with what it wrote. `looks` answers `is_cancelled`, by the number of the question.
unfoldable pub copy : (ℕ → Bool) → ℕ → List Round → List ℕ → Copied × List ℕ
copy looks k [] content = if looks k then (interrupted, content) else (complete (suc k), content)
copy looks k (broken message ∷ rounds) content =
    if looks k then (interrupted, content) else (stopped (sftp_read_error message), content)
copy looks k (chunk b bs (some (message, part)) ∷ rounds) content =
    if looks k
    then (interrupted, content)
    else (stopped (sftp_write_error message), content ++ part)
copy looks k (chunk b bs none ∷ rounds) content =
    let rest = copy looks (suc k) rounds (content ++ b ∷ bs) in
    if looks k then (interrupted, content) else rest

abbrev pub or_empty : Option Text → Text
or_empty name = elim name [ none ↦ [] | some n ↦ n ]

-- The name of the temporary file, and its place beside the target.
abbrev pub temp_name : Text → Text → Text
temp_name name task_id = 46 ∷ (name ++ (46 ∷ (task_id ++ codes ".part")))

unfoldable pub beside : Text → Text → Text
beside path name = elim (parent path) [
  | none ↦ name
  | some directory ↦ if directory == [] then name else join directory name
]

unfoldable pub download_temp_path : Text → Text → Text
unfolding beside
download_temp_path local_path task_id =
    beside local_path (temp_name (or_empty (file_name local_path)) task_id)

unfoldable pub upload_temp_path : Text → Text → Text
unfolding download_temp_path
upload_temp_path remote_path task_id = download_temp_path remote_path task_id

-- `{path} ({error})`.
abbrev pub in_brackets : Text → Text → Text
in_brackets path error = path ++ (codes " (" ++ (error ++ codes ")"))

abbrev pub cleanup_failure : Text → Text → Text
cleanup_failure path error = codes "清理临时文件失败: " ++ in_brackets path error

-- Both clean-ups take what the removal answers.
unfoldable pub cleanup_download_temp : Option Text → Text → Files → Files × Result (Unit {0})
cleanup_download_temp removal path files =
    if not (exists path files) then (files, ok tt) else elim removal [
      | none ↦ (remove path files, ok tt)
      | some error ↦ (files, err (sftp_transfer_error (cleanup_failure path error)))
    ]

unfoldable pub cleanup_upload_temp : Option AppError → Text → Files → Files × Result (Unit {0})
cleanup_upload_temp removal path files = elim removal [
  | none ↦ (remove path files, ok tt)
  | some error ↦ (files, err (sftp_transfer_error (cleanup_failure path (to_string error))))
]

unfoldable pub merge_cleanup_failure : AppError → Result (Unit {0}) → AppError
merge_cleanup_failure primary (ok _) = primary
merge_cleanup_failure primary (err error) = with_appended_detail primary (to_string error)

abbrev pub error_of : Result (Unit {0}) → Option AppError
error_of r = elim r [ ok _ ↦ none | err e ↦ some e ]

abbrev pub is_reject : ConflictStrategy → Bool
is_reject strategy = elim strategy [ reject ↦ true | overwrite ↦ false ]

-- An `std::io::Error` of a rename.
pub record RenameError : Type 0 where
  pub already_exists : Bool
  pub message : Text

-- What the local disk answers during a download. `intruder` is a file that another program puts at
-- the target between the check and the rename.
pub record LocalAnswers : Type 0 where
  pub creation : Option Text
  pub flush : Option Text
  pub intruder : Option (List ℕ)
  pub opening : Option Text
  pub registration : Option Text
  pub renaming : Option RenameError
  pub closing : Option Text
  pub removal : Option Text

abbrev pub with_intruder : Option (List ℕ) → Text → Files → Files
with_intruder intruder path files = elim intruder [
  | none ↦ files
  | some content ↦ insert path content files
]

-- `NamedTempFile::persist_noclobber` and `NamedTempFile::persist`.
unfoldable pub persist :
    ConflictStrategy → Option RenameError → Text → Text → Files → Option RenameError
persist reject renaming temp target files =
    if exists target files
    then some (record { already_exists = true; message = codes "File exists (os error 17)" })
    else renaming
persist overwrite renaming temp target files = renaming

-- A file takes the place of the target.
unfoldable pub move : Text → Text → Files → Files
move temp target files = elim (get temp files) [
  | none ↦ files
  | some content ↦ insert target content (remove temp files)
]

abbrev pub publish_failure : ConflictStrategy → Text → Text → RenameError → AppError
publish_failure strategy temp target error =
    if is_reject strategy && error.already_exists
    then sftp_target_exists target
    else sftp_publish_error (
        codes "发布失败: "
        ++ (temp ++ (codes " -> " ++ (in_brackets target error.message ++ codes "，目标原文件未受影响"))))

-- The end of a failed rename: the temporary file is closed, which removes it if it can.
unfoldable pub close_unpublished :
    LocalAnswers → ConflictStrategy → Text → Text → RenameError → Files → Files × Result (Unit {0})
close_unpublished a strategy temp target error files = elim a.closing [
  | none ↦ (remove temp files, err (publish_failure strategy temp target error))
  | some failure ↦ (
    files,
    err (
        with_appended_detail (publish_failure strategy temp target error)
          (cleanup_failure temp failure)),
  )
]

-- From the open temporary file on.
unfoldable pub persist_file :
    LocalAnswers → ConflictStrategy → Text → Text → Files → Files × Result (Unit {0})
unfolding persist move close_unpublished
persist_file a strategy temp target files = elim (persist strategy a.renaming temp target files) [
  | none ↦ (move temp target files, ok tt)
  | some error ↦ close_unpublished a strategy temp target error files
]

unfoldable pub publish_download_file :
    LocalAnswers → ConflictStrategy → Text → Text → Files → Files × Result (Unit {0})
unfolding persist_file
publish_download_file a strategy temp target files =
    if is_reject strategy && exists target files
    then (files, err (sftp_target_exists target))
    else let later = with_intruder a.intruder target files in
      elim a.opening [
        | some error ↦
            (later, err (sftp_publish_error (codes "打开临时文件失败: " ++ in_brackets temp error)))
        | none ↦ elim a.registration [
          | some error ↦
              (later, err (sftp_publish_error (codes "登记临时文件失败: " ++ in_brackets temp error)))
          | none ↦ persist_file a strategy temp target later
        ]
      ]

-- The temporary file is removed, and the outcome tells if it could not be.
unfoldable pub give_up : LocalAnswers → Text → AppError → Files → Files × TransferOutcome
unfolding cleanup_download_temp merge_cleanup_failure
give_up a temp primary files =
    let (rest, cleanup) = cleanup_download_temp a.removal temp files in
    (rest, failed (merge_cleanup_failure primary cleanup))

unfoldable pub stop_cancelled : LocalAnswers → Text → Files → Files × TransferOutcome
unfolding cleanup_download_temp
stop_cancelled a temp files =
    let (rest, cleanup) = cleanup_download_temp a.removal temp files in
    (rest, cancelled (error_of cleanup))

-- After the publication.
unfoldable pub settle : LocalAnswers → Text → Files × Result (Unit {0}) → Files × TransferOutcome
unfolding give_up
settle a temp (files, ok _) = (files, done)
settle a temp (files, err error) = give_up a temp error files

-- After the loop.
unfoldable pub finish_download :
    LocalAnswers
    → (ℕ → Bool)
    → ConflictStrategy
    → Text
    → Text
    → Copied
    → Files
    → Files × TransferOutcome
unfolding settle publish_download_file give_up stop_cancelled
finish_download a looks strategy temp target interrupted files = stop_cancelled a temp files
finish_download a looks strategy temp target (stopped error) files = give_up a temp error files
finish_download a looks strategy temp target (complete k) files = elim a.flush [
  | some error ↦ give_up a temp (sftp_write_error error) files
  | none ↦
      if looks k
      then stop_cancelled a temp files
      else settle a temp (publish_download_file a strategy temp target files)
]

-- The branch of a download. `lock` is the message of a poisoned lock, `source` what `open_read` says.
unfoldable pub run_download :
    LocalAnswers
    → Option Text
    → Result (List Round)
    → (ℕ → Bool)
    → ConflictStrategy
    → Text
    → Text
    → Files
    → Files × TransferOutcome
unfolding copy finish_download download_temp_path
run_download a lock source looks strategy local_path task_id files = elim lock [
  | some error ↦ (files, failed (sftp_channel_error error))
  | none ↦ if looks 0 then (files, cancelled none) else elim source [
    | err error ↦ (files, failed error)
    | ok rounds ↦
        let temp = download_temp_path local_path task_id in
        elim a.creation [
          | some error ↦ (files, failed (sftp_create_error (in_brackets temp error)))
          | none ↦
              let (copied, content) = copy looks 1 rounds [] in
              finish_download a looks strategy temp local_path copied (insert temp content files)
        ]
  ]
]
