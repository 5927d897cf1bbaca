-- ===== src/Approval/Causes.antt =====
-- The operations of internal/aigc/approval/memory_store.go, and which of the effects each has.
pub mod Chains
pub mod Creating
pub mod Deciding
pub mod Switching
pub mod Others
pub mod Steps
