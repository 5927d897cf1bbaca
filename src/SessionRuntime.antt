-- ===== src/SessionRuntime.antt =====
-- internal/aigc/sessionruntime: the durable input lane in front of the agent, its leases and turns.
pub mod Models
pub mod Store
pub mod Steps
pub mod Lifecycle
pub mod Fences
pub mod Entry
pub mod Continuation
pub mod Listing
mod Scenarios
