-- ===== src/Notifications.antt =====
-- services/notifications: the feed, the outbound channels, their preferences and devices.
pub mod Models
pub mod Templates
pub mod Preferences
pub mod Service
pub mod Consumer
pub mod Expected
pub mod Plan
pub mod Sends
pub mod Devices
mod Tests
