-- ===== src/Users.antt =====
-- services/users: accounts, their tokens and passwords, addresses, favourites.
pub mod Models
pub mod Redis
pub mod Jwt
pub mod Store
pub mod Accounts
pub mod Sessions
pub mod Profile
pub mod Favorites
pub mod Routes
pub mod Requests
pub mod Steps
pub mod Eviction
pub mod Revocation
pub mod Rotation
pub mod Defaults
mod Tests
