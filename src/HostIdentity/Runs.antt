-- ===== src/HostIdentity/Runs.antt =====
-- core/host_identity.rs: `verify` and the step relation.
use titan_ssh.Common.{text_eq}
