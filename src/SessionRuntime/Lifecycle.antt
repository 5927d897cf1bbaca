-- ===== src/SessionRuntime/Lifecycle.antt =====
-- What a store keeps through the operations of internal/aigc/sessionruntime/memory_store.go: how
-- each record of an input and of a turn may develop.
pub mod Evolution
pub mod Keeps
pub mod Rules
pub mod LaneSteps
pub mod TurnSteps
pub mod EndingSteps
pub mod RecoverySteps
pub mod ClaimSteps
pub mod Heads
pub mod Deaths
pub mod Selection
pub mod Claim
pub mod Development
pub mod Rows
pub mod OneStarted
