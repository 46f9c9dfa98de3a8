-- ===== src/SftpService/EvictionTests.antt =====
-- `evict_old_terminal_tasks` of core/sftp_service.rs at concrete tasks.
use titan_ssh.Common.{ℕ, zero, suc, List, [], ◌∷◌, none, Text, text_eq}
use titan_ssh.SftpService.Models.{download, done, TransferTask}
use titan_ssh.SftpService.Samples.{session}

abbrev task_of : ℕ → TransferTask
task_of n = record {
  task_id = n ∷ [];
  session_id = session;
  transfer_type = download;
  remote_path = [];
  local_path = [];
  file_name = [];
  total_bytes = 0;
  transferred_bytes = 0;
  speed_bps = 0;
  status = done;
  error = none;
  created_at = n;
}

-- Finished tasks of the session, each created a moment after the next.
abbrev many : ℕ → List (Text × TransferTask)
many zero = []
many (suc n) = (n ∷ [], task_of n) ∷ many n
