-- ===== src/Admin.antt =====
-- services/admin: the operator's copies of users, restaurants and orders, and the numbers over them.
pub mod Models
pub mod Consumer
pub mod Service
pub mod Stats
pub mod Redelivery
mod Tests
