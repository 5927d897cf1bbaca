-- ===== src/SessionRuntime/Listing.antt =====
-- ListRunnableSessions of internal/aigc/sessionruntime/memory_store.go: the heads that it finds are the
-- ones of ClaimNext, and it lists the sessions that have an input to work on.
pub mod Heads
pub mod Sorting
pub mod Sessions
mod Tests
