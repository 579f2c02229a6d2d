-- ===== src/Restaurants.antt =====
-- services/restaurants: opening hours, stock, delivery zones, the validation of orders, approval, reviews.
pub mod Models
pub mod Hours
pub mod Inventory
pub mod Zones
pub mod Validation
pub mod Service
pub mod Reviews
pub mod Ratings
pub mod Menu
pub mod Consumer
pub mod Discovery
pub mod Requests
pub mod Venues
mod Tests
