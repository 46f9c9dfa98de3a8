-- ===== src/HostIdentity.antt =====
-- core/host_identity.rs: the confirmation of host keys, and the trust that a session has in them.
pub mod State
pub mod Verify
pub mod Decisions
pub mod Sync
pub mod Batches
pub mod Holding
pub mod Consistent
pub mod Openings
pub mod Steps
pub mod Frames
pub mod Growth
pub mod Safety
pub mod Trust
pub mod Closing
pub mod Outcomes
pub mod Saving
pub mod Waiters
pub mod Runs
mod Tests
