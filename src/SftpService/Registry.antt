-- ===== src/SftpService/Registry.antt =====
-- core/sftp_service.rs: the registry of transfer tasks and the handles of the sessions.
mod State
mod Enqueue
mod Endings
unfoldable pub use titan_ssh.SftpService.Registry.State.{
  new, cancel, is_cancelled, register_session_with_verifier, handle, register_cancel_entry,
  cancel_entry, with_handle,
}
pub use titan_ssh.SftpService.Registry.State.{CancelEntry, SftpHandle, SftpService}
unfoldable pub use titan_ssh.SftpService.Registry.Enqueue.{
  check_free, check_download, new_task, register_task, commit_download, enqueue_download,
  full_remote_path, enqueue_upload,
}
pub use titan_ssh.SftpService.Registry.Enqueue.{target_of, occupies, file_name_or, ends_with_slash}
unfoldable pub use titan_ssh.SftpService.Registry.Endings.{
  find_entry, cancel_task, commit_transition, drop_token, emit_status, transition_task,
  cancel_active, close_handle, cleanup_session, clear_terminal_tasks, insert_task, sort_tasks,
  task_snapshot, release_transfer_connection,
}
pub use titan_ssh.SftpService.Registry.Endings.{event_of, is_active, is_of_session}
