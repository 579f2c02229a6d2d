-- ===== src/Payments.antt =====
-- services/payments: one payment to an order, its provider, the webhook and the commands.
pub mod Models
pub mod Providers
pub mod Service
pub mod Signature
pub mod Webhook
pub mod Consumer
pub mod Deliveries
pub mod Laws
pub mod Gaps
mod Tests
