-- ===== src/Aep.antt =====
-- The root package of the module: the wire model and the checks that every role shares.
pub mod Types
pub mod Responses
pub mod Bytes
pub mod Carriers
pub mod OpenApi
pub mod Mailbox
pub mod Issues
pub mod Assertion
pub mod Json
pub mod Codec
mod CarrierTests
mod OpenApiTests
mod Tests
pub mod Claims
