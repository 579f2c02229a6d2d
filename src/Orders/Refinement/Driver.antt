-- ===== src/Orders/Refinement/Driver.antt =====
-- The driver's handler refines the abstract step.
use food_delivery_system.Base.{
  ℕ, ◌≡◌, true, none, some, inl, inr, find, begin, if◌then◌else◌, arith, Bool-cases, Option-cases,
}
use food_delivery_system.Orders.Models.{OrderStatus, Actor, Order, settle, OrdersDb}
use food_delivery_system.Orders.StateMachine.{allowed}
use food_delivery_system.Orders.Store.{order_key}
use food_delivery_system.Orders.Actions.{is_delivered}
use food_delivery_system.Orders.Lifecycle.{driver_advance}
use food_delivery_system.Orders.Moves.{Change, same}
use food_delivery_system.Orders.Refinement.Books.{Change-of_effect}
use food_delivery_system.Orders.Refinement.Effects.{
  effect, transition, Extra, quiet, commands, messages,
}

delivery_extra : OrderStatus → Extra
delivery_extra to = if is_delivered to then commands settle else quiet

driver_advance-effect :
    (id : ℕ) (to : OrderStatus) (db : OrdersDb) (now : ℕ) (o : Order)
    → find order_key id db.orders ≡ some o
    → allowed o.status to ≡ true
    → let after = record o { status = to; updated_at = now } in
      (driver_advance id to (begin db now)).1.durable
      ≡ effect db after
          (transition o to Actor.driver none now)
          (messages (delivery_extra to) after db)
unfolding driver_advance delivery_extra
driver_advance-effect id to db now o e legal = ground arith

-- What a driver does to an order changes nothing, or is one legal move with its
-- audit row and the commands that it calls for.
pub driver_advance-Change :
    (id : ℕ) (to : OrderStatus) (db : OrdersDb) (now : ℕ)
    → Change db (driver_advance id to (begin db now)).1.durable
unfolding driver_advance
driver_advance-Change id to db now = elim (Option-cases (find order_key id db.orders)) [
  | inl missing ↦ same (ground arith)
  | inr (o, e) ↦ elim (Bool-cases (allowed o.status to)) [
    | inr illegal ↦ same (ground arith)
    | inl legal ↦
        Change-of_effect id o (record o { status = to; updated_at = now }) Actor.driver none now
          (delivery_extra to) e (driver_advance-effect id to db now o e legal)
          (unfold delivery_extra in ground (arith, legal))
  ]
]
