-- ===== src/SessionRuntime/Models.antt =====
-- The data of internal/aigc/sessionruntime/models.go, by child.
pub mod Status
pub mod Records
pub mod Inputs
pub mod Building
pub mod Decoding
pub mod RoundTrip
mod Tests
