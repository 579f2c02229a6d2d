-- ===== src/Restaurants/Venues.antt =====
-- What a request may do to the restaurants and to what their events tell, as a relation of databases.
pub mod Handlers
pub mod Others
pub mod Histories
use food_delivery_system.Base.{
  ℕ, suc, ◌≡◌, ◌⊎◌, Bool, true, Option, none, some, List, [], ◌∷◌, String, find, save, ◌==◌,
  if◌then◌else◌,
}
use food_delivery_system.Shared.OutboxEvent.{OutboxEvent}
use food_delivery_system.Restaurants.Models.{
  pending, Restaurant, Payload, restaurant_changed, RestaurantsDb, restaurant_key, owner_key,
}

-- What an event tells of a restaurant.
abbrev pub told : ℕ → Payload → Option Payload
told k (restaurant_changed id owner_id name is_open status) =
    if id == k then some (restaurant_changed id owner_id name is_open status) else none
told k _ = none

-- The newest event of a restaurant; the outbox has its newest first.
unfoldable pub latest : ℕ → List (OutboxEvent Payload) → Option Payload
latest k [] = none
latest k (e ∷ es) = elim (told k e.payload) [ some p ↦ some p | none ↦ latest k es ]

-- A row is written, and its event recorded.
pub record IsStored (v : Restaurant) (a b : RestaurantsDb) : Type 0 where
  pub rows : b.restaurants ≡ save restaurant_key v a.restaurants
  pub events :
      (k : ℕ)
      → latest k b.outbox ≡ (
          if v.id == k
          then some (restaurant_changed v.id v.owner_id v.name v.is_open v.approval_status)
          else latest k a.outbox)

pub data Change (decision : Bool) (a b : RestaurantsDb) : Type 0 where
  untouched :
      b.restaurants ≡ a.restaurants
      → b.next_restaurant_id ≡ a.next_restaurant_id
      → ((k : ℕ) → latest k b.outbox ≡ latest k a.outbox)
      → Change decision a b
  registered :
      (v : Restaurant)
      → v.id ≡ a.next_restaurant_id
      → find owner_key v.owner_id a.restaurants ≡ none
      → v.approval_status ≡ pending
      → b.next_restaurant_id ≡ suc a.next_restaurant_id
      → IsStored v a b
      → Change decision a b
  changed :
      (r v : Restaurant)
      → find restaurant_key v.id a.restaurants ≡ some r
      → r.owner_id ≡ v.owner_id
      → (decision ≡ true) ⊎ (v.approval_status ≡ r.approval_status)
      → b.next_restaurant_id ≡ a.next_restaurant_id
      → IsStored v a b
      → Change decision a b
