-- ===== src/Orders/Refinement.antt =====
-- The handlers of Orders.Lifecycle, one by one, against the abstract step of Orders.Moves.
pub mod Effects
pub mod Books
pub mod Driver
pub mod Gate
pub mod Restaurant
pub mod Customer
pub mod Payment
pub mod Sweep
pub mod Expiry
