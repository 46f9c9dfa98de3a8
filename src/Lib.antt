-- ===== src/Lib.antt =====
-- TitanSSH: the Rust back end of the terminal, src-tauri/src, as far as it decides and remembers
-- things. Paths below are from src-tauri/src.
--
-- The parts and how they interact.
-- - Common: texts as lists of character codes, maps as association lists, the iterator methods,
--   decimal numbers, the line splitting and the parts of `std::path` that the program calls.
-- - Errors (errors/app_error.rs): the error of every operation, its message, its code, and the
--   payload for the front end. `Result` and its operators stand here too.
-- - TransferPool (core/transfer_pool.rs): the pool of at most five SFTP connections of a session.
--   TransferPool.antt has the state and one function for each stretch of code under the state
--   lock: `attempt` is one turn of the loop in `checkout`, `wait_for_wakeup` its continuation,
--   `reaper_plan` and `reaper_round` the two halves of a turn of `reaper_loop`, and
--   `create_connection`, `checkin`, `cancel_waiter` and `close` keep their names. TransferPool/World
--   puts them under any schedule of threads.
-- - TrustStore (storage/trust_store.rs): the file known_hosts and its cache. Format is the parser
--   and the printer, State the operations, with the answer of the file system as an argument.
-- - HostIdentity (core/host_identity.rs, models/session.rs, models/host_identity.rs): challenges,
--   decisions and trust. State has the data; the decision cell that a challenge shares with its
--   waiters is an entry of a map from ids. Verify has the three stretches of `verify` under the
--   lock (`check_known`, `trust_matched`, `open_challenge`), their composition `verify`, and
--   `wait_for_decision`. Decisions has `accept`, `accept_and_save`, `reject`, `cancel_session`,
--   `cancel_all`, `forget_endpoint` and `list_trusted_hosts`; the stored records are TrustStore's.
--   Steps is the step relation of all threads together. Decisions are written after the lock is
--   released, by the thread that has taken the challenge out, so no other thread writes that cell
--   and the write belongs to the same step.
-- - HostService (core/host_service.rs, storage/host_store.rs, models/host.rs): saved hosts. Hosts
--   has the file hosts.json, Service the parts and Operations `save` and `delete`. The credential
--   store is an interface; the clean-up of trust records is `forget_endpoint` of HostIdentity.
-- - SecureStore (storage/secure_store.rs): credentials on Linux, in the secret service and, when it
--   cannot be reached, in the kernel key ring. SecureStore.antt has `set_with_fallback`,
--   `get_with_fallback`, `delete_with_fallback` and their helpers; Entry is what the crate keyring
--   promises of one entry. HostService/SecureCredentials fills the interface of HostService with it.
-- - MonitorService (core/monitor_service.rs, models/monitor.rs): the registry of monitoring tasks.
--   `start_monitoring` is the function up to its thread; what the thread does are steps of
--   MonitorService/Histories: `transition_task_status` and `on_snapshot`, in any order.
-- - MonitorWorker (core/monitor_worker.rs, models/monitor.rs): what the thread of a monitoring task
--   makes of the script's output. `parse_snapshot_at`, `compute_network_rates`, `compute_cpu_usage`
--   and their helpers; `run_monitor_loop_with` is a list of reports, one round of the loop for each
--   answer of the connection.
-- - SftpService (core/sftp_service.rs, models/sftp.rs): file transfers. Registry/State has the
--   service with its handles and tasks, Registry/Enqueue `enqueue_download` and `enqueue_upload`, and
--   Registry/Endings `cancel_task`, `transition_task`, `cleanup_session` and the rest; Evictions is
--   `evict_old_terminal_tasks`. Connection and Control are `SftpConnection` and `run_control_op`, cut
--   where a thread waits or connects, with `connect_sftp_for_host`. Worker is the body of `spawn_transfer_task`, and the pool that it uses is TransferPool.
--   Transfer and Upload are the two branches of `run_transfer_blocking` over a map of files, with the
--   temporary file and its publication, and Progress has the events on the way. Listing is `list_dir`
--   with `format_permissions`. Steps puts the commands and the workers in any order.
--
-- Bounds and fuel. No function needs fuel: every loop is structural, and a thread that waits is
-- a state and not a call. The counters of the pool are u64; its theorems ask for fewer than 2^64
-- events, since the counters grow by at most one with each. Ports are u16, bounded by `port_max`
-- where the parser or a round trip needs it. The counters of a monitored host are u64 and the product
-- in a rate is u128, both written out. Times are numbers of milliseconds or of clock ticks.
--
-- Parameters. The crates base64 (a record `Base64`), keyring (a record `Entry`), SHA-256 (a
-- function) and serde_json (a record `Json`) are arguments, with their round trips as laws.
-- The floating-point numbers of the monitor are a record `Floats` without laws, and the speed of a
-- transfer is a function.
-- Answers of the file system, of servers and of connections, random ids and clock readings are
-- arguments of the operations that use them. What a rename does where it succeeds, on the local disk
-- and on a server, follows the contracts that the code's comments state.
--
-- Not modelled: the permits of the semaphore of all transfers, which is tokio's and whose answer is an
-- argument (core/sftp_service.rs); the terminal and the transport, which are I/O over the ssh2 library
-- (core/terminal_service.rs, core/ssh_transport.rs); the registry of sessions (core/session_manager.rs); the key rings of macOS
-- and Windows in storage/secure_store.rs, which are single calls; the Tauri commands and the front end.
pub mod Common
pub mod Errors
pub mod HostIdentity
pub mod HostService
pub mod MonitorService
pub mod MonitorWorker
pub mod SecureStore
pub mod SftpService
pub mod TransferPool
pub mod TrustStore
