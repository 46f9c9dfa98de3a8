-- ===== src/HostService.antt =====
-- core/host_service.rs, storage/host_store.rs and models/host.rs: the saved host configurations,
-- with the credentials and the trust records that go with them.
pub mod Hosts
pub mod Service
pub mod Operations
pub mod Compensation
pub mod Files
pub mod Commits
pub mod Deleting
pub mod Losses
mod Tests
mod CredentialTests
pub mod SecureCredentials
pub mod Samples
