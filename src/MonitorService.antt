-- ===== src/MonitorService.antt =====
-- core/monitor_service.rs and models/monitor.rs: the registry of monitoring tasks. The shutdown
-- flag, which a task shares with its worker, is an entry of a map from task ids; `emitted` are the
-- status events, oldest first. What a worker measures is a parameter `M`.
pub mod Histories
mod Tests
use titan_ssh.Common.{
  ℕ, Bool, true, false, not, List, [], ◌∷◌, ◌++◌, Option, none, some, Text, codes, text_eq, nat_eq,
  ◌==◌, if◌then◌else◌, get, insert, remove, retain,
}
use titan_ssh.Errors.{AppError, AppErrorInfo, invalid_host_config, Result, ok, err, ◌>>=◌}
use titan_ssh.HostService.Hosts.{HostConfig, AuthType, password, private_key}

pub data TaskStatus : Type 0 where
  pending running done failed : TaskStatus

pub record TaskInfo : Type 0 where
  pub task_id : Text
  pub task_type : Text
  pub session_id : Option Text
  pub status : TaskStatus
  pub created_at : ℕ

pub record TaskStatusEvent : Type 0 where
  pub task_id : Text
  pub status : TaskStatus
  pub error : Option AppErrorInfo

pub record MonitorService (M : Type 0) : Type 0 where
  pub tasks : List (Text × TaskInfo)
  pub shutdown : List (Text × Bool)
  pub snapshots : List (Text × M)
  pub emitted : List TaskStatusEvent

-- The pairs of the state machine.
unfoldable pub is_legal : TaskStatus → TaskStatus → Bool
is_legal pending running = true
is_legal running done = true
is_legal running failed = true
is_legal pending pending = false
is_legal pending done = false
is_legal pending failed = false
is_legal running pending = false
is_legal running running = false
is_legal done status = false
is_legal failed status = false

-- The credentials of a host: `get_credential` of storage/secure_store.rs is an argument.
unfoldable pub read_credentials :
    (Text → Result Text) → HostConfig → Result (Option Text × Option Text)
read_credentials get_credential host = elim host.auth_type [
  | password ↦ elim host.password_ref [
    | none ↦ err (invalid_host_config (codes "密码引用为空"))
    | some key ↦ get_credential key >>= λ value. ok (some value, none)
  ]
  | private_key ↦ elim host.passphrase_ref [
    | none ↦ ok (none, none)
    | some key ↦ get_credential key >>= λ value. ok (none, some value)
  ]
]

abbrev pub is_of_session : Text → Text × TaskInfo → Bool
is_of_session session_id entry = elim entry.1.session_id [
  | none ↦ false
  | some id ↦ id == session_id
]

-- The flags of the tasks that a stop takes out.
unfoldable pub raise_flags : List (Text × TaskInfo) → List (Text × Bool) → List (Text × Bool)
raise_flags [] flags = flags
raise_flags ((id, info) ∷ tasks) flags = raise_flags tasks (insert id true flags)

-- The payload of `task:status`.
abbrev pub event_of : Text → TaskStatus → Option Text → TaskStatusEvent
event_of task_id status message = record {
  task_id = task_id;
  status = status;
  error = elim message [
    | none ↦ none
    | some detail ↦ some (record { code = codes "MonitorError"; detail = some detail })
  ];
}

module _ {M : Type 0} where
  unfoldable pub new : MonitorService M
  new = record { tasks = []; shutdown = []; snapshots = []; emitted = [] }

  unfoldable pub emit_task_status :
      Text → TaskStatus → Option Text → MonitorService M → MonitorService M
  emit_task_status task_id status message s = record s {
    emitted = s.emitted ++ event_of task_id status message ∷ [];
  }

  unfoldable pub transition_task_status :
      Text → TaskStatus → Option Text → MonitorService M → MonitorService M × Bool
  unfolding is_legal emit_task_status
  transition_task_status task_id status message s = elim (get task_id s.tasks) [
    | none ↦ (s, false)
    | some info ↦
        if is_legal info.status status
        then (
          emit_task_status task_id status message
              (record s { tasks = insert task_id (record info { status = status }) s.tasks }),
          true,
        )
        else (s, false)
  ]

  -- `start_monitoring`, up to the thread that it starts.
  unfoldable pub start_monitoring :
      (Text → Result Text)
      → Text
      → HostConfig
      → Text
      → ℕ
      → MonitorService M
      → MonitorService M × Result TaskInfo
  unfolding read_credentials emit_task_status
  start_monitoring get_credential session_id host task_id now s =
      elim (read_credentials get_credential host) [
        | err error ↦ (s, err error)
        | ok _ ↦
            let info : TaskInfo = record {
              task_id = task_id;
              task_type = codes "monitor";
              session_id = some session_id;
              status = pending;
              created_at = now;
            } in
            (
              emit_task_status task_id pending none (record s {
                tasks = insert task_id info s.tasks;
                shutdown = insert task_id false s.shutdown;
              }),
              ok info,
            )
      ]

  -- The callback of a snapshot; `push_error` is what a failed emission says.
  unfoldable pub on_snapshot : Text → Text → M → Option Text → MonitorService M → MonitorService M
  unfolding transition_task_status
  on_snapshot task_id session_id snapshot push_error s =
      let t : MonitorService M = record s { snapshots = insert session_id snapshot s.snapshots } in
      elim push_error [
        | none ↦ t
        | some error ↦
            (transition_task_status task_id failed (some (codes "监控快照推送失败: " ++ error)) t).0
      ]

  unfoldable pub stop_monitoring : Text → MonitorService M → MonitorService M
  stop_monitoring task_id s = elim (get task_id s.tasks) [
    | none ↦ s
    | some info ↦ record s {
      tasks = remove task_id s.tasks;
      shutdown = insert task_id true s.shutdown;
    }
  ]

  unfoldable pub stop_session : Text → MonitorService M → MonitorService M
  unfolding raise_flags
  stop_session session_id s = record s {
    tasks = retain (λ entry. not (is_of_session session_id entry)) s.tasks;
    shutdown = raise_flags (retain (is_of_session session_id) s.tasks) s.shutdown;
    snapshots = remove session_id s.snapshots;
  }

  unfoldable pub get_monitor_status : Text → MonitorService M → Option M
  get_monitor_status session_id s = get session_id s.snapshots
