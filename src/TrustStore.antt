-- ===== src/TrustStore.antt =====
-- storage/trust_store.rs: the `known_hosts` file of TitanSSH and its cache.
pub mod Records
pub mod Format
pub mod State
pub mod RoundTrip
pub mod Endpoints
pub mod Updates
pub mod Listing
pub mod Samples
mod Tests
