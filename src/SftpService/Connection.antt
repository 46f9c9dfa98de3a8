-- ===== src/SftpService/Connection.antt =====
-- `SftpConnection` of core/sftp_service.rs: the state of one connection, and each stretch of its
-- code under the state lock. A transport is named by the address of its `Arc`, which `ptr_eq`
-- compares. `get` is cut where it waits and where it connects with the lock given up.
use titan_ssh.Common.{ℕ, Bool, true, false, Text, codes, nat_eq, ◌==◌, if◌then◌else◌}
use titan_ssh.HostService.Hosts.{HostConfig, password, private_key}
use titan_ssh.Common.{Option, none, some}
use titan_ssh.Errors.{
  invalid_host_config, ◌>>=◌, AppError, sftp_channel_error, ssh_connection_error, to_string, Result,
  ok, err,
}

abbrev pub Transport : Type 0
Transport = ℕ

pub data ConnectionState : Type 0 where
  idle connecting closed : ConnectionState
  ready : Transport → ConnectionState
  failed : Text → ConnectionState

-- How a turn of the loop of `get` ends: it returns, it waits to be notified, or it goes on to connect.
pub data Turn : Type 0 where
  returns : Result Transport → Turn
  waits connects : Turn

abbrev session_closed : AppError
session_closed = sftp_channel_error (codes "session 已关闭")

unfoldable pub connect_eager : ConnectionState → ConnectionState × Bool
connect_eager idle = (connecting, true)
connect_eager connecting = (connecting, false)
connect_eager closed = (closed, false)
connect_eager (ready t) = (ready t, false)
connect_eager (failed m) = (failed m, false)

-- What the thread of `connect_eager` does with the connector's answer.
unfoldable pub eager_state : Result Transport → ConnectionState
eager_state (ok t) = ready t
eager_state (err e) = failed (to_string e)

unfoldable pub finish_eager : Result Transport → ConnectionState → ConnectionState
unfolding eager_state
finish_eager result closed = closed
finish_eager result idle = eager_state result
finish_eager result connecting = eager_state result
finish_eager result (ready t) = eager_state result
finish_eager result (failed m) = eager_state result

-- One turn of the loop of `get`, up to the wait or the connector.
unfoldable pub get_turn : ConnectionState → ConnectionState × Turn
get_turn (ready t) = (ready t, returns (ok t))
get_turn connecting = (connecting, waits)
get_turn (failed m) = (idle, returns (err (sftp_channel_error m)))
get_turn closed = (closed, returns (err session_closed))
get_turn idle = (connecting, connects)

unfoldable pub connected_state : Result Transport → ConnectionState
connected_state (ok t) = ready t
connected_state (err e) = idle

-- `get` goes on with the connector's answer.
unfoldable pub finish_get : Result Transport → ConnectionState → ConnectionState × Result Transport
unfolding connected_state
finish_get result closed = (closed, err session_closed)
finish_get result idle = (connected_state result, result)
finish_get result connecting = (connected_state result, result)
finish_get result (ready t) = (connected_state result, result)
finish_get result (failed m) = (connected_state result, result)

unfoldable pub invalidate_if_ready : Transport → ConnectionState → ConnectionState
invalidate_if_ready t (ready current) = if current == t then idle else ready current
invalidate_if_ready t idle = idle
invalidate_if_ready t connecting = connecting
invalidate_if_ready t closed = closed
invalidate_if_ready t (failed m) = failed m

unfoldable pub close : ConnectionState → ConnectionState
close state = closed

unfoldable pub is_connection_failure : AppError → Bool
is_connection_failure (sftp_channel_error d) = true
is_connection_failure (ssh_connection_error d) = true
is_connection_failure e = false

-- The credentials of a host, from `get_credential` of storage/secure_store.rs, and the connection
-- of core/ssh_transport.rs with them; both are arguments.
unfoldable pub connect_sftp_for_host :
    (Text → Result Text)
    → (HostConfig → Option Text → Option Text → Result Transport)
    → HostConfig
    → Result Transport
connect_sftp_for_host get_credential connect_sftp host = elim host.auth_type [
  | password ↦ elim host.password_ref [
    | none ↦ err (invalid_host_config (codes "密码引用为空"))
    | some key ↦ get_credential key >>= λ value. connect_sftp host (some value) none
  ]
  | private_key ↦ elim host.passphrase_ref [
    | none ↦ connect_sftp host none none
    | some key ↦ get_credential key >>= λ value. connect_sftp host none (some value)
  ]
]
