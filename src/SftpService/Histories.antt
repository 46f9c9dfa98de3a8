-- ===== src/SftpService/Histories.antt =====
-- core/sftp_service.rs: what the front end is told of each transfer task.
use titan_ssh.Common.{text_eq}
use titan_ssh.SftpService.Registry.{SftpService}
