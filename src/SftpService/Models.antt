-- ===== src/SftpService/Models.antt =====
-- models/sftp.rs: transfer tasks, their statuses, and the events that the front end receives.
use titan_ssh.Common.{ℕ, Bool, true, false, ◌≡◌, ◌↔◌, Option, Text, Eq, arith}
use titan_ssh.Errors.{AppErrorInfo}

pub data TransferType : Type 0 where
  upload download : TransferType

pub data ConflictStrategy : Type 0 where
  reject overwrite : ConflictStrategy

pub data SftpTaskStatus : Type 0 where
  pending running done failed cancelled : SftpTaskStatus

pub record TransferTask : Type 0 where
  pub task_id : Text
  pub session_id : Text
  pub transfer_type : TransferType
  pub remote_path : Text
  pub local_path : Text
  pub file_name : Text
  pub total_bytes : ℕ
  pub transferred_bytes : ℕ
  pub speed_bps : ℕ
  pub status : SftpTaskStatus
  pub error : Option AppErrorInfo
  pub created_at : ℕ

pub record SftpTaskStatusEvent : Type 0 where
  pub task_id : Text
  pub session_id : Text
  pub status : SftpTaskStatus
  pub error : Option AppErrorInfo

-- `PartialEq`, as it is derived.
unfoldable pub type_beq : TransferType → TransferType → Bool
type_beq upload upload = true
type_beq upload download = false
type_beq download upload = false
type_beq download download = true

pub type_beq_iff : (a b : TransferType) → (type_beq a b ≡ true) ↔ (a ≡ b)
unfolding type_beq
type_beq_iff upload upload = ground arith
type_beq_iff upload download = ground arith
type_beq_iff download upload = ground arith
type_beq_iff download download = ground arith

instance abbrev pub type_eq : Eq TransferType
type_eq = record { eq = type_beq; eq_iff = type_beq_iff }

unfoldable pub is_terminal : SftpTaskStatus → Bool
is_terminal pending = false
is_terminal running = false
is_terminal done = true
is_terminal failed = true
is_terminal cancelled = true

-- The pairs of the state machine of `transition_task`.
unfoldable pub is_legal : SftpTaskStatus → SftpTaskStatus → Bool
is_legal pending running = true
is_legal pending cancelled = true
is_legal running done = true
is_legal running failed = true
is_legal running cancelled = true
is_legal pending pending = false
is_legal pending done = false
is_legal pending failed = false
is_legal running pending = false
is_legal running running = false
is_legal done status = false
is_legal failed status = false
is_legal cancelled status = false
