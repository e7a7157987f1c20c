-- ===== src/Platform.antt =====
-- The Platform role: the agent identities that a Platform hosts.
pub mod Types
pub mod Identifiers
pub mod Idempotency
pub mod Replay
pub mod Identities
pub mod Results
pub mod Requests
pub mod Config
pub mod AgentDids
pub mod Construction
pub mod Listing
pub mod Operations
mod Sample
mod Tests
mod OperationTests
mod VerificationTests
mod ConfigurationTests
