-- ===== src/Errors.antt =====
-- errors/app_error.rs: the error of every operation, its message (the `#[error]` attributes), its
-- stable code, and the payload that crosses to the front end.
mod Laws
use titan_ssh.Common.{Text, codes, ◌++◌, Option, none, some, ◌≡◌, refl, ◌⊎◌, inl, inr}

pub data AppError : Type 0 where
  ssh_connection_error : Text → AppError
  authentication_error : Text → AppError
  session_not_found : Text → AppError
  invalid_host_config : Text → AppError
  storage_error : Text → AppError
  io_error : Text → AppError
  ssh_protocol_error : Text → AppError
  secure_store_error : Text → AppError
  credential_not_found : Text → AppError
  sftp_channel_error : Text → AppError
  sftp_permission_denied : Text → AppError
  sftp_path_not_found : Text → AppError
  sftp_transfer_error : Text → AppError
  sftp_open_error : Text → AppError
  sftp_read_error : Text → AppError
  sftp_write_error : Text → AppError
  sftp_create_error : Text → AppError
  sftp_task_not_found : Text → AppError
  sftp_target_exists : Text → AppError
  sftp_target_busy : Text → AppError
  sftp_publish_error : Text → AppError
  host_key_rejected : Text → AppError
  host_key_challenge_not_found : Text → AppError
  host_key_verification_cancelled : Text → AppError
  trust_store_error : Text → AppError
  host_key_save_failed : Text → AppError
  host_trust_cleanup_failed : Text → AppError

-- `impl From<AppError> for AppErrorInfo`.
pub record AppErrorInfo : Type 0 where
  pub code : Text
  pub detail : Option Text

-- The text that a constructor carries. An `std::io::Error` is its message.
unfoldable pub detail_of : AppError → Text
detail_of (ssh_connection_error d) = d
detail_of (authentication_error d) = d
detail_of (session_not_found d) = d
detail_of (invalid_host_config d) = d
detail_of (storage_error d) = d
detail_of (io_error d) = d
detail_of (ssh_protocol_error d) = d
detail_of (secure_store_error d) = d
detail_of (credential_not_found d) = d
detail_of (sftp_channel_error d) = d
detail_of (sftp_permission_denied d) = d
detail_of (sftp_path_not_found d) = d
detail_of (sftp_transfer_error d) = d
detail_of (sftp_open_error d) = d
detail_of (sftp_read_error d) = d
detail_of (sftp_write_error d) = d
detail_of (sftp_create_error d) = d
detail_of (sftp_task_not_found d) = d
detail_of (sftp_target_exists d) = d
detail_of (sftp_target_busy d) = d
detail_of (sftp_publish_error d) = d
detail_of (host_key_rejected d) = d
detail_of (host_key_challenge_not_found d) = d
detail_of (host_key_verification_cancelled d) = d
detail_of (trust_store_error d) = d
detail_of (host_key_save_failed d) = d
detail_of (host_trust_cleanup_failed d) = d

-- `Display`, as `thiserror` derives it.
unfoldable pub to_string : AppError → Text
to_string (ssh_connection_error d) = codes "SSH 连接失败: " ++ d
to_string (authentication_error d) = codes "认证失败: " ++ d
to_string (session_not_found d) = codes "会话不存在: " ++ d
to_string (invalid_host_config d) = codes "主机配置无效: " ++ d
to_string (storage_error d) = codes "存储错误: " ++ d
to_string (io_error d) = codes "IO 错误: " ++ d
to_string (ssh_protocol_error d) = codes "SSH 协议错误: " ++ d
to_string (secure_store_error d) = codes "安全存储错误: " ++ d
to_string (credential_not_found d) = codes "凭据不存在: " ++ d ++ codes "，请重新编辑主机配置以重新保存凭据"
to_string (sftp_channel_error d) = codes "SFTP 通道错误: " ++ d
to_string (sftp_permission_denied d) = codes "SFTP 权限拒绝: " ++ d
to_string (sftp_path_not_found d) = codes "SFTP 路径不存在: " ++ d
to_string (sftp_transfer_error d) = codes "SFTP 传输错误: " ++ d
to_string (sftp_open_error d) = codes "SFTP 打开失败: " ++ d
to_string (sftp_read_error d) = codes "SFTP 读取失败: " ++ d
to_string (sftp_write_error d) = codes "SFTP 写入失败: " ++ d
to_string (sftp_create_error d) = codes "SFTP 创建失败: " ++ d
to_string (sftp_task_not_found d) = codes "SFTP 任务不存在: " ++ d
to_string (sftp_target_exists d) = codes "SFTP 目标已存在: " ++ d
to_string (sftp_target_busy d) = codes "SFTP 目标正被占用: " ++ d
to_string (sftp_publish_error d) = codes "SFTP 发布失败: " ++ d
to_string (host_key_rejected d) = codes "已拒绝未知主机身份: " ++ d
to_string (host_key_challenge_not_found d) = codes "主机身份确认请求不存在: " ++ d
to_string (host_key_verification_cancelled d) = codes "主机身份验证已取消: " ++ d
to_string (trust_store_error d) = codes "信任存储错误: " ++ d
to_string (host_key_save_failed d) = codes "主机信任保存失败: " ++ d
to_string (host_trust_cleanup_failed d) = codes "主机信任记录清理失败: " ++ d

unfoldable pub code : AppError → Text
code (ssh_connection_error d) = codes "SshConnectionError"
code (authentication_error d) = codes "AuthenticationError"
code (session_not_found d) = codes "SessionNotFound"
code (invalid_host_config d) = codes "InvalidHostConfig"
code (storage_error d) = codes "StorageError"
code (io_error d) = codes "IoError"
code (ssh_protocol_error d) = codes "SshProtocolError"
code (secure_store_error d) = codes "SecureStoreError"
code (credential_not_found d) = codes "CredentialNotFound"
code (sftp_channel_error d) = codes "SftpChannelError"
code (sftp_permission_denied d) = codes "SftpPermissionDenied"
code (sftp_path_not_found d) = codes "SftpPathNotFound"
code (sftp_transfer_error d) = codes "SftpTransferError"
code (sftp_open_error d) = codes "SftpOpenError"
code (sftp_read_error d) = codes "SftpReadError"
code (sftp_write_error d) = codes "SftpWriteError"
code (sftp_create_error d) = codes "SftpCreateError"
code (sftp_task_not_found d) = codes "SftpTaskNotFound"
code (sftp_target_exists d) = codes "SftpTargetExists"
code (sftp_target_busy d) = codes "SftpTargetBusy"
code (sftp_publish_error d) = codes "SftpPublishError"
code (host_key_rejected d) = codes "HostKeyRejected"
code (host_key_challenge_not_found d) = codes "HostKeyChallengeNotFound"
code (host_key_verification_cancelled d) = codes "HostKeyVerificationCancelled"
code (trust_store_error d) = codes "TrustStoreError"
code (host_key_save_failed d) = codes "HostKeySaveFailed"
code (host_trust_cleanup_failed d) = codes "HostTrustCleanupFailed"

unfoldable pub with_appended_detail : AppError → Text → AppError
with_appended_detail (ssh_connection_error d) extra =
    ssh_connection_error (to_string (ssh_connection_error d) ++ codes "；" ++ extra)
with_appended_detail (authentication_error d) extra =
    authentication_error (to_string (authentication_error d) ++ codes "；" ++ extra)
with_appended_detail (session_not_found d) extra =
    session_not_found (to_string (session_not_found d) ++ codes "；" ++ extra)
with_appended_detail (invalid_host_config d) extra =
    invalid_host_config (to_string (invalid_host_config d) ++ codes "；" ++ extra)
with_appended_detail (storage_error d) extra =
    storage_error (to_string (storage_error d) ++ codes "；" ++ extra)
with_appended_detail (io_error d) extra = io_error (to_string (io_error d) ++ codes "；" ++ extra)
with_appended_detail (ssh_protocol_error d) extra =
    ssh_protocol_error (to_string (ssh_protocol_error d) ++ codes "；" ++ extra)
with_appended_detail (secure_store_error d) extra =
    secure_store_error (to_string (secure_store_error d) ++ codes "；" ++ extra)
with_appended_detail (credential_not_found d) extra =
    credential_not_found (to_string (credential_not_found d) ++ codes "；" ++ extra)
with_appended_detail (sftp_channel_error d) extra =
    sftp_channel_error (to_string (sftp_channel_error d) ++ codes "；" ++ extra)
with_appended_detail (sftp_permission_denied d) extra =
    sftp_permission_denied (to_string (sftp_permission_denied d) ++ codes "；" ++ extra)
with_appended_detail (sftp_path_not_found d) extra =
    sftp_path_not_found (to_string (sftp_path_not_found d) ++ codes "；" ++ extra)
with_appended_detail (sftp_transfer_error d) extra =
    sftp_transfer_error (to_string (sftp_transfer_error d) ++ codes "；" ++ extra)
with_appended_detail (sftp_open_error d) extra =
    sftp_open_error (to_string (sftp_open_error d) ++ codes "；" ++ extra)
with_appended_detail (sftp_read_error d) extra =
    sftp_read_error (to_string (sftp_read_error d) ++ codes "；" ++ extra)
with_appended_detail (sftp_write_error d) extra =
    sftp_write_error (to_string (sftp_write_error d) ++ codes "；" ++ extra)
with_appended_detail (sftp_create_error d) extra =
    sftp_create_error (to_string (sftp_create_error d) ++ codes "；" ++ extra)
with_appended_detail (sftp_task_not_found d) extra =
    sftp_task_not_found (to_string (sftp_task_not_found d) ++ codes "；" ++ extra)
with_appended_detail (sftp_target_exists d) extra =
    sftp_target_exists (to_string (sftp_target_exists d) ++ codes "；" ++ extra)
with_appended_detail (sftp_target_busy d) extra =
    sftp_target_busy (to_string (sftp_target_busy d) ++ codes "；" ++ extra)
with_appended_detail (sftp_publish_error d) extra =
    sftp_publish_error (to_string (sftp_publish_error d) ++ codes "；" ++ extra)
with_appended_detail (host_key_rejected d) extra =
    host_key_rejected (to_string (host_key_rejected d) ++ codes "；" ++ extra)
with_appended_detail (host_key_challenge_not_found d) extra =
    host_key_challenge_not_found (to_string (host_key_challenge_not_found d) ++ codes "；" ++ extra)
with_appended_detail (host_key_verification_cancelled d) extra =
    host_key_verification_cancelled
      (to_string (host_key_verification_cancelled d) ++ codes "；" ++ extra)
with_appended_detail (trust_store_error d) extra =
    trust_store_error (to_string (trust_store_error d) ++ codes "；" ++ extra)
with_appended_detail (host_key_save_failed d) extra =
    host_key_save_failed (to_string (host_key_save_failed d) ++ codes "；" ++ extra)
with_appended_detail (host_trust_cleanup_failed d) extra =
    host_trust_cleanup_failed (to_string (host_trust_cleanup_failed d) ++ codes "；" ++ extra)

unfoldable pub to_info : AppError → AppErrorInfo
to_info e = record { code = code e; detail = some (detail_of e) }

-- `Result<A, AppError>`, and its `?` as the bind of a do block.
pub data Result {ℓ} (A : Type ℓ) : Type ℓ where
  ok : A → Result A
  err : AppError → Result A

infixl 5 ◌>>=◌ ◌>>◌
abbrev pub ◌>>=◌ {ℓ κ} : {T : Type ℓ} {U : Type κ} → Result T → (T → Result U) → Result U
ok value >>= next = next value
err error >>= next = err error

abbrev pub ◌>>◌ {κ} : {U : Type κ} → Result (Unit {0}) → Result U → Result U
done >> next = done >>= λ _. next

-- `ok_or_else`.
abbrev pub ok_or {ℓ} : {A : Type ℓ} → Option A → AppError → Result A
ok_or none e = err e
ok_or (some a) e = ok a

-- `map_err`.
abbrev pub map_err {ℓ} : {A : Type ℓ} → (AppError → AppError) → Result A → Result A
map_err f (ok a) = ok a
map_err f (err e) = err (f e)

pub Result-cases {ℓ} :
    {A : Type ℓ} (r : Result A) → ((a : A) × (r ≡ ok a)) ⊎ ((e : AppError) × (r ≡ err e))
Result-cases (ok a) = inl (a, refl)
Result-cases (err e) = inr (e, refl)

-- A match on a result, and what holds of each branch.
pub result_rule {ℓ κ μ} :
    {A : Type ℓ} {B : Type κ} (P : B → Type μ) (r : Result A) {x : AppError → B} {y : A → B}
    → ((e : AppError) → r ≡ err e → P (x e))
    → ((a : A) → r ≡ ok a → P (y a))
    → P (elim r [ err e ↦ x e | ok a ↦ y a ])
result_rule P (ok a) h k = k a refl
result_rule P (err e) h k = h e refl
