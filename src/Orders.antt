-- ===== src/Orders.antt =====
-- services/orders: the cart, checkout, the order lifecycle and what it tells the other services.
pub mod Models
pub mod StateMachine
pub mod Store
pub mod Actions
pub mod Lifecycle
pub mod Cart
pub mod Reorder
pub mod Checkout
pub mod Consumer
pub mod Invariant
pub mod Moves
pub mod Refinement
pub mod Requests
pub mod Authorization
pub mod Gaps
pub mod Sample
mod Tests
