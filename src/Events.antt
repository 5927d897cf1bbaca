-- ===== src/Events.antt =====
-- internal/aigc/events: the log of session events behind the event stream, and its relay.
pub mod Models
pub mod Store
pub mod Log
pub mod Puts
pub mod Runs
pub mod Once
pub mod Tailing
pub mod Numbers
pub mod Relay
pub mod Hub
pub mod Delivery
pub mod Polling
pub mod Deliveries
mod Tests
