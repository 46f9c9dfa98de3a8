-- ===== src/MonitorService/Tests.antt =====
-- The tasks of core/monitor_service.rs at one host.
use titan_ssh.Common.{ℕ, ◌≡◌, refl, false, [], ◌∷◌, none, Text, text_eq, beq}
use titan_ssh.Errors.{err, credential_not_found}
use titan_ssh.HostService.Hosts.{HostConfig, private_key}
use titan_ssh.MonitorService.{
  running, done, failed, MonitorService, is_legal, read_credentials, new, emit_task_status,
  transition_task_status, start_monitoring,
}
use titan_ssh.MonitorService.Histories.{
  history, path_to, Reach, here, next, starts, transitions, IsTold, Reach-IsTold,
}

abbrev host : HostConfig
host = record {
  id = [];
  name = [];
  host = [];
  port = 22;
  username = [];
  auth_type = private_key;
  password_ref = none;
  private_key_path = none;
  passphrase_ref = none;
  remark = none;
  group = [];
}

abbrev task : Text
task = 1 ∷ []

abbrev session : Text
session = 2 ∷ []

abbrev started : MonitorService ℕ
started = (start_monitoring (λ key. err (credential_not_found key)) session host task 5 new).0

abbrev finished : MonitorService ℕ
finished =
    (transition_task_status task done none (transition_task_status task running none started).0).0

finished-Reach : Reach new finished
unfolding new history
finished-Reach =
    next
      (next
        (next here
          (starts new (λ key. err (credential_not_found key)) session host task 5 refl refl))
        (transitions started task running none))
      (transitions (transition_task_status task running none started).0 task done none)

-- The task is done, and another status is refused.
history-finished :
    (history task finished.emitted ≡ path_to done)
    × ((transition_task_status task failed none finished).1 ≡ false)
unfolding new history path_to start_monitoring read_credentials emit_task_status
    transition_task_status is_legal beq
history-finished = (refl, refl)

Reach-IsTold_example : IsTold task finished.tasks finished.emitted
Reach-IsTold_example = Reach-IsTold finished-Reach task
