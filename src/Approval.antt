-- ===== src/Approval.antt =====
-- internal/aigc/approval: human approvals, their decisions, and the outbox of events.
pub mod Models
pub mod Requests
pub mod Commands
pub mod Decisions
pub mod Outboxes
pub mod Candidates
pub mod State
pub mod Store
pub mod Modes
pub mod Relaying
pub mod Listing
pub mod Steps
pub mod Announced
pub mod Effects
pub mod Causes
pub mod Evolution
pub mod Finality
pub mod Primary
pub mod Ledger
pub mod Recorded
pub mod Records
pub mod Fallbacks
pub mod Whole
pub mod Again
pub mod Replay
mod Tests
