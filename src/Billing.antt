-- ===== src/Billing.antt =====
-- internal/aigc/billing: accounts of points, with credits, charges and refunds.
pub mod Models
pub mod Store
pub mod Balance
pub mod Replay
pub mod Refunds
pub mod RefundSteps
pub mod Runs
pub mod Ledger
mod Tests
