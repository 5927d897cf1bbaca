-- ===== src/SessionRuntime/Continuation.antt =====
-- Continuations of approvals in internal/aigc/sessionruntime: how one develops over any operations,
-- who may execute it, and the ledger of its commands.
pub mod Steps
pub mod Chains
pub mod Evolution
pub mod Applied
pub mod Executors
pub mod Exclusive
pub mod Ledger
pub mod Recorded
mod Tests
