-- ===== src/SftpService/Registry/State.antt =====
-- core/sftp_service.rs: the state of the service, of one session's handle, and the cancel entries. A
-- `CancelToken` is named by its task; `raised` holds the tokens whose flag is set. `emitted` are
-- the status events, oldest first. Maps are gone through in the order of their list.
use titan_ssh.Common.{
  ℕ, ◌+◌, ◌%◌, ◌^◌, Bool, List, [], ◌∷◌, ◌++◌, Option, none, some, Text, codes, text_eq, nat_eq,
  ◌==◌, any, get, insert,
}
use titan_ssh.Errors.{sftp_channel_error, Result, ok, err}
use titan_ssh.TransferPool as Pool
use titan_ssh.TransferPool.{TransferPool, TransferClock, TransferCheckout}
use titan_ssh.SftpService.Connection.{ConnectionState, idle, Transport, connect_eager}
use titan_ssh.SftpService.Models.{type_eq, TransferTask, SftpTaskStatusEvent}

pub record CancelEntry : Type 0 where
  pub token : Text
  pub queue_seq : ℕ

pub record SftpHandle : Type 0 where
  pub control : ConnectionState
  pub transfer_pool : TransferPool Transport
  pub cancel_tokens : List (Text × CancelEntry)
  pub enqueue_seq : ℕ

pub record SftpService : Type 0 where
  pub handles : List (Text × SftpHandle)
  pub tasks : List (Text × TransferTask)
  pub raised : List Text
  pub emitted : List SftpTaskStatusEvent
  pub clock : TransferClock
  pub idle_timeout : ℕ

unfoldable pub new : TransferClock → ℕ → SftpService
new clock idle_timeout = record {
  handles = [];
  tasks = [];
  raised = [];
  emitted = [];
  clock = clock;
  idle_timeout = idle_timeout;
}

-- `CancelToken::cancel` and `CancelToken::is_cancelled`.
unfoldable pub cancel : Text → SftpService → SftpService
cancel token s = record s { raised = token ∷ s.raised }

unfoldable pub is_cancelled : Text → SftpService → Bool
is_cancelled token s = any (λ t. t == token) s.raised

unfoldable pub register_session_with_verifier : Text → SftpService → SftpService
register_session_with_verifier session_id s = record s {
  handles =
      insert session_id
        (record {
          control = (connect_eager idle).0;
          transfer_pool = Pool.new_cyclic s.clock s.idle_timeout;
          cancel_tokens = [];
          enqueue_seq = 0;
        })
        s.handles;
}

unfoldable pub handle : Text → SftpService → Result SftpHandle
handle session_id s = elim (get session_id s.handles) [
  | none ↦ err (sftp_channel_error (codes "session " ++ (session_id ++ codes " 不存在")))
  | some h ↦ ok h
]

-- The entry is made in the handle that the caller holds; the counter wraps around.
unfoldable pub register_cancel_entry : Text → SftpHandle → SftpHandle × ℕ
register_cancel_entry task_id h = (
  record h {
    enqueue_seq = (h.enqueue_seq + 1) % 2 ^ 64;
    cancel_tokens =
        insert task_id (record { token = task_id; queue_seq = h.enqueue_seq }) h.cancel_tokens;
  },
  h.enqueue_seq,
)

unfoldable pub cancel_entry : Text → SftpHandle → Option CancelEntry
cancel_entry task_id h = get task_id h.cancel_tokens

-- A change of the handle of a session, if it is still registered.
unfoldable pub with_handle : Text → (SftpHandle → SftpHandle) → SftpService → SftpService
with_handle session_id change s = elim (get session_id s.handles) [
  | none ↦ s
  | some h ↦ record s { handles = insert session_id (change h) s.handles }
]
