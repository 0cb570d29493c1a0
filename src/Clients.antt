-- ===== src/Clients.antt =====
-- The three clients of the broker: manager/, publisher/ and subscriber/.
pub mod System
pub mod Failures
pub mod Statuses
pub mod Manager
pub mod Publisher
pub mod Subscriber
pub mod Exchange
pub mod Registrations
pub mod Answers
mod Tests
mod RunTests
