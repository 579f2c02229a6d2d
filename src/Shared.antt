-- ===== src/Shared.antt =====
-- shared/: what every service is built on.
pub mod Identity
pub mod OutboxEvent
pub mod Relay
pub mod CircuitBreaker
pub mod RateLimit
pub mod Messaging
mod Tests
