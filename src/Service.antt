-- ===== src/Service.antt =====
-- The Service role: enrollment, credential issuance and request authentication.
pub mod Authentication
pub mod Types
pub mod Replay
pub mod Idempotency
pub mod Enrollments
pub mod Config
pub mod Replies
pub mod Recognition
pub mod Limits
pub mod Merge
pub mod Documents
pub mod Credentials
pub mod Commands
pub mod Sample
mod Tests
mod CommandTests
mod CredentialTests
