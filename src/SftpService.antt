-- ===== src/SftpService.antt =====
-- core/sftp_service.rs and models/sftp.rs: file transfers.
pub mod Models
pub mod Evictions
pub mod Connection
pub mod Attempts
pub mod Control
pub mod Registry
pub mod Kept
pub mod Sorting
pub mod Newest
pub mod Steps
pub mod Owners
pub mod Sound
pub mod Told
pub mod Histories
pub mod Cancels
pub mod Closing
pub mod Worker
pub mod Running
pub mod Verdicts
pub mod Targets
pub mod Transfer
pub mod Moves
pub mod Downloads
pub mod Upload
pub mod Uploads
pub mod TempPaths
pub mod Listing
pub mod Progress
mod Samples
mod EvictionTests
mod TransferTests
mod Tests
