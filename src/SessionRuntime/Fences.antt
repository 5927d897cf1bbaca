-- ===== src/SessionRuntime/Fences.antt =====
-- Leases and fencing tokens of internal/aigc/sessionruntime over any sequence of operations.
pub mod LeaseWrites
pub mod Stale
pub mod Acquisition
pub mod Released
