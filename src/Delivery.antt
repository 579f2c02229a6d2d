-- ===== src/Delivery.antt =====
-- services/delivery: one delivery to an order, the drivers, their offers, and the tracking view.
pub mod Models
pub mod Drivers
pub mod Assignment
pub mod Location
pub mod Consumer
pub mod Tracking
pub mod Requests
pub mod Steps
pub mod Histories
pub mod Gaps
mod Tests
