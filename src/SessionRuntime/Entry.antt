-- ===== src/SessionRuntime/Entry.antt =====
-- internal/aigc/sessionruntime: EnqueueInput over again, and with an input bound to a message.
pub mod Replay
pub mod Bound
mod Tests
