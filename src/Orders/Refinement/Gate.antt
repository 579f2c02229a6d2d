-- ===== src/Orders/Refinement/Gate.antt =====
-- How a restaurant's handler begins.
use food_delivery_system.Base.{
  ℕ, ◌≡◌, true, false, none, some, inl, inr, find, Bool-cases, Option-cases,
}
use food_delivery_system.Shared.Identity.{Identity}
use food_delivery_system.Orders.Models.{OrderStatus, RestaurantSnapshot, Order, OrdersDb}
use food_delivery_system.Orders.StateMachine.{allowed}
use food_delivery_system.Orders.Store.{order_key, restaurant_key}
use food_delivery_system.Orders.Actions.{manages}

-- The three ways in which such a handler stops before it writes, and the one in which it goes on.
pub data Gate (user : Identity) (id : ℕ) (to : OrderStatus) (db : OrdersDb) : Type 0 where
  missing : find order_key id db.orders ≡ none → Gate user id to db
  unknown_restaurant :
      (o : Order)
      → find order_key id db.orders ≡ some o
      → find restaurant_key o.restaurant_id db.restaurants ≡ none
      → Gate user id to db
  stranger :
      (o : Order) (r : RestaurantSnapshot)
      → find order_key id db.orders ≡ some o
      → find restaurant_key o.restaurant_id db.restaurants ≡ some r
      → manages user r ≡ false
      → Gate user id to db
  illegal :
      (o : Order) (r : RestaurantSnapshot)
      → find order_key id db.orders ≡ some o
      → find restaurant_key o.restaurant_id db.restaurants ≡ some r
      → manages user r ≡ true
      → allowed o.status to ≡ false
      → Gate user id to db
  passed :
      (o : Order) (r : RestaurantSnapshot)
      → find order_key id db.orders ≡ some o
      → find restaurant_key o.restaurant_id db.restaurants ≡ some r
      → manages user r ≡ true
      → allowed o.status to ≡ true
      → Gate user id to db

pub gate : (user : Identity) (id : ℕ) (to : OrderStatus) (db : OrdersDb) → Gate user id to db
gate user id to db = elim (Option-cases (find order_key id db.orders)) [
  | inl e ↦ missing e
  | inr (o, e) ↦ elim (Option-cases (find restaurant_key o.restaurant_id db.restaurants)) [
    | inl u ↦ unknown_restaurant o e u
    | inr (r, f) ↦ elim (Bool-cases (manages user r)) [
      | inr m ↦ stranger o r e f m
      | inl m ↦ elim (Bool-cases (allowed o.status to)) [
        | inr l ↦ illegal o r e f m l
        | inl l ↦ passed o r e f m l
      ]
    ]
  ]
]
