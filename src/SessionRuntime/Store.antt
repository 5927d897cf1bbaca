-- ===== src/SessionRuntime/Store.antt =====
-- The operations of internal/aigc/sessionruntime/memory_store.go, by child.
pub mod State
pub mod Fencing
pub mod Leases
pub mod Lane
pub mod Claims
pub mod Recovery
pub mod Turns
pub mod Outputs
pub mod Endings
pub mod Continuations
pub mod Commands
pub mod Runnable
