-- ===== src/Orders/Refinement/Payment.antt =====
-- The payment's handler refines the abstract step.
use food_delivery_system.Base.{
  ap, ℕ, ◌≡◌, true, false, Option, none, some, inl, inr, find, save-save, begin, arith, Bool-cases,
  Option-cases,
}
use food_delivery_system.Orders.Models.{
  payment_success, success, payment_confirmed, RestaurantSnapshot, Actor, Order, OrdersDb,
}
use food_delivery_system.Orders.StateMachine.{allowed}
use food_delivery_system.Orders.Store.{order_key, restaurant_key}
use food_delivery_system.Orders.Actions.{is_payment_pending}
use food_delivery_system.Orders.Lifecycle.{mark_paid}
use food_delivery_system.Orders.Moves.{Change, same}
use food_delivery_system.Orders.Refinement.Books.{Change-of_effect}
use food_delivery_system.Orders.Refinement.Effects.{
  effect, transition, Extra, quiet, notice, messages, IsBooked,
}

-- The row of an order whose payment has arrived.
unfoldable pub paid_row : Order → ℕ → Order
paid_row o now = record o { status = payment_success; payment_status = success; updated_at = now }

-- The owner of the order's restaurant hears of it, if the restaurant is known.
unfoldable pub paid_extra : Option RestaurantSnapshot → Extra
paid_extra none = quiet
paid_extra (some r) = notice r.owner_id

paid_row-IsBooked :
    (o : Order) (now : ℕ) (r : Option RestaurantSnapshot)
    → is_payment_pending o.status ≡ true
    → IsBooked o (paid_row o now) (paid_extra r)
unfolding paid_row paid_extra allowed
paid_row-IsBooked o now r h = ground arith

-- An order that waits for its payment is marked paid: its status and its payment status are written,
-- one audit row is added, one status event is recorded, and its restaurant, if it is known, is told.
pub mark_paid-effect :
    (id : ℕ) (db : OrdersDb) (now : ℕ) (o : Order)
    → find order_key id db.orders ≡ some o
    → is_payment_pending o.status ≡ true
    → (mark_paid id (begin db now)).1.durable
      ≡ effect db
          (paid_row o now)
          (transition o payment_success Actor.system (some payment_confirmed) now)
          (messages
            (paid_extra (find restaurant_key o.restaurant_id db.restaurants))
            (paid_row o now)
            db)
unfolding mark_paid paid_row paid_extra allowed
mark_paid-effect id db now o e h = ground (
  arith,
  save-save order_key (record o { status = payment_success; updated_at = now })
      (record o { status = payment_success; payment_status = success; updated_at = now }) db.orders,
)

-- The news of a payment for an order that does not wait for one, a cancelled order for instance,
-- changes nothing and commands nothing: a payment that arrives after the cancellation is not given
-- back from here.
pub mark_paid-idle :
    (id : ℕ) (db : OrdersDb) (now : ℕ) (o : Order)
    → find order_key id db.orders ≡ some o
    → is_payment_pending o.status ≡ false
    → (mark_paid id (begin db now)).1 ≡ begin db now
unfolding mark_paid
mark_paid-idle id db now o e h = ground arith

-- The news that an order is paid changes nothing, or is one legal move of one order.
pub mark_paid-Change :
    (id : ℕ) (db : OrdersDb) (now : ℕ) → Change db (mark_paid id (begin db now)).1.durable
unfolding paid_row
mark_paid-Change id db now = elim (Option-cases (find order_key id db.orders)) [
  | inl missing ↦ same (unfold mark_paid in ground arith)
  | inr (o, e) ↦ elim (Bool-cases (is_payment_pending o.status)) [
    | inr idle ↦ same (ap (λ s. s.durable) (mark_paid-idle id db now o e idle))
    | inl waiting ↦
        Change-of_effect id o (paid_row o now) Actor.system (some payment_confirmed) now
          (paid_extra (find restaurant_key o.restaurant_id db.restaurants)) e
          (mark_paid-effect id db now o e waiting)
          (paid_row-IsBooked o now (find restaurant_key o.restaurant_id db.restaurants) waiting)
  ]
]
