-- ===== src/Generation.antt =====
-- internal/aigc/generation: the workflow of media generation, as far as its state machines.
pub mod StateMachine
pub mod Models
pub mod Barrier
pub mod Cost
pub mod Finalize
pub mod Signals
pub mod Finalizing
pub mod Signalling
pub mod Paths
pub mod JobPaths
mod Tests
mod BarrierTests
