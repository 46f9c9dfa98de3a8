-- ===== src/SftpService/Registry/Enqueue.antt =====
-- `enqueue_download` and `enqueue_upload` of core/sftp_service.rs: the checks, and the registration of
-- a new task.
use titan_ssh.Common.{
  ℕ, Bool, false, not, ◌&&◌, [], ◌∷◌, ◌++◌, none, some, Text, codes, text_eq, nat_eq, ◌==◌,
  if◌then◌else◌, any, insert, file_name, parent, reverse, nat_beq,
}
use titan_ssh.Errors.{sftp_transfer_error, sftp_target_busy, Result, ok, err, ◌>>=◌}
use titan_ssh.SftpService.Models.{
  TransferType, upload, download, type_eq, pending, TransferTask, is_terminal,
}
use titan_ssh.SftpService.Registry.State.{SftpService, handle, register_cancel_entry, with_handle}

-- The final target of a task: a local file for a download, a remote one for an upload.
abbrev pub target_of : TransferTask → Text
target_of task = elim task.transfer_type [ upload ↦ task.remote_path | download ↦ task.local_path ]

-- An unfinished task of the session that writes to the target.
abbrev pub occupies : Text → TransferType → Text → Text × TransferTask → Bool
occupies session_id kind target entry =
    entry.1.session_id == session_id
    && entry.1.transfer_type == kind
    && not (is_terminal entry.1.status)
    && target_of entry.1 == target

unfoldable pub check_free : Text → TransferType → Text → SftpService → Result (Unit {0})
check_free session_id kind target s =
    if any (occupies session_id kind target) s.tasks then err (sftp_target_busy target) else ok tt

-- `enqueue_download` up to its question for the size of the file; `exists` asks the local disk.
unfoldable pub check_download : (Text → Bool) → Text → Text → SftpService → Result (Unit {0})
unfolding check_free handle
check_download exists session_id local_path s = elim (parent local_path) [
  | none ↦ err (sftp_transfer_error (codes "本地路径无效"))
  | some directory ↦
      if not (exists directory)
      then err (sftp_transfer_error (codes "本地目录不存在: " ++ directory))
      else elim (file_name local_path) [
        | none ↦ err (sftp_transfer_error (codes "本地路径无效"))
        | some _ ↦ handle session_id s >>= λ _. check_free session_id download local_path s
      ]
]

abbrev pub file_name_or : Text → Text
file_name_or path = elim (file_name path) [ none ↦ path | some name ↦ name ]

unfoldable pub new_task : TransferType → Text → Text → Text → Text → Text → ℕ → ℕ → TransferTask
new_task kind task_id session_id remote_path local_path name total_bytes now = record {
  task_id = task_id;
  session_id = session_id;
  transfer_type = kind;
  remote_path = remote_path;
  local_path = local_path;
  file_name = name;
  total_bytes = total_bytes;
  transferred_bytes = 0;
  speed_bps = 0;
  status = pending;
  error = none;
  created_at = now;
}

-- The end of both enqueue functions: the task is registered, and then its cancel entry.
unfoldable pub register_task : TransferTask → SftpService → SftpService
unfolding with_handle register_cancel_entry
register_task task s =
    with_handle task.session_id (λ h. (register_cancel_entry task.task_id h).0)
      (record s { tasks = insert task.task_id task s.tasks })

-- `size` is the answer of `run_control_op`.
unfoldable pub commit_download :
    Result ℕ → Text → ℕ → Text → Text → Text → SftpService → SftpService × Result TransferTask
unfolding new_task register_task
commit_download size task_id now session_id remote_path local_path s = elim size [
  | err error ↦ (s, err error)
  | ok total ↦
      let name = file_name_or remote_path in
      let task = new_task download task_id session_id remote_path local_path name total now in
      (register_task task s, ok task)
]

-- With nothing else happening while the size is asked for.
unfoldable pub enqueue_download :
    (Text → Bool)
    → Result ℕ
    → Text
    → ℕ
    → Text
    → Text
    → Text
    → SftpService
    → SftpService × Result TransferTask
unfolding check_download commit_download
enqueue_download exists size task_id now session_id remote_path local_path s =
    elim (check_download exists session_id local_path s) [
      | err error ↦ (s, err error)
      | ok _ ↦ commit_download size task_id now session_id remote_path local_path s
    ]

-- `remote_path.ends_with('/')`.
abbrev pub ends_with_slash : Text → Bool
ends_with_slash path = elim (reverse path) [ [] ↦ false | c ∷ _ ↦ nat_beq c 47 ]

unfoldable pub full_remote_path : Text → Text → Text
full_remote_path remote_path name =
    if ends_with_slash remote_path then remote_path ++ name else remote_path ++ (47 ∷ name)

unfoldable pub enqueue_upload :
    (Text → Bool)
    → (Text → ℕ)
    → Text
    → ℕ
    → Text
    → Text
    → Text
    → SftpService
    → SftpService × Result TransferTask
unfolding check_free handle new_task register_task full_remote_path
enqueue_upload exists size task_id now session_id local_path remote_path s =
    if not (exists local_path)
    then (s, err (sftp_transfer_error (codes "本地文件不存在: " ++ local_path)))
    else let name = file_name_or local_path in
      let target = full_remote_path remote_path name in
      elim (handle session_id s >>= λ _. check_free session_id upload target s) [
        | err error ↦ (s, err error)
        | ok _ ↦
            let task =
              new_task upload task_id session_id target local_path name (size local_path) now in
            (register_task task s, ok task)
      ]
