-- ===== src/Orders/Gaps.antt =====
-- Where the orders service does not do what its comments say: the customer's cancellation takes no
-- row lock, and the general status route takes every target that the table allows.
use food_delivery_system.Base.{
  ℕ, ◌≡◌, ◌∙◌, ap, true, false, some, [], ◌∷◌, find, find-save, begin, arith,
}
use food_delivery_system.Shared.Identity.{Identity}
use food_delivery_system.Orders.Models.{
  payment_pending, payment_success, rejected, Order, RestaurantSnapshot, refund, OrdersDb,
}
use food_delivery_system.Orders.StateMachine.{allowed, is_pre_prep, is_unpaid}
use food_delivery_system.Orders.Store.{order_key, restaurant_key}
use food_delivery_system.Orders.Actions.{manages}
use food_delivery_system.Orders.Lifecycle.{cancel_as_read, advance_status}
use food_delivery_system.Orders.Invariant.{requested}
use food_delivery_system.Orders.Refinement.Customer.{
  customer_cancelled, customer_extra, cancel_as_read-effect,
}

-- One cancellation of a paid order asks for one refund of its total.
cancel-requests :
    (o : Order) (db : OrdersDb) (now : ℕ)
    → is_pre_prep o.status ≡ true
    → is_unpaid o.status ≡ false
    → requested o.id refund (cancel_as_read o (begin db now)).1.durable.outbox
      ≡ o.total ∷ requested o.id refund db.outbox
unfolding requested customer_cancelled customer_extra
cancel-requests o db now h taken = ground (arith, cancel_as_read-effect o (begin db now) h)

-- Two cancellations of one paid order that both read it before either commits are both carried out,
-- and the payments service is told twice to refund the order's total.
pub cancel-race :
    (o : Order) (db : OrdersDb) (t u : ℕ)
    → is_pre_prep o.status ≡ true
    → is_unpaid o.status ≡ false
    → let first = (cancel_as_read o (begin db t)).1.durable in
      requested o.id refund (cancel_as_read o (begin first u)).1.durable.outbox
      ≡ o.total ∷ o.total ∷ requested o.id refund db.outbox
cancel-race o db t u h taken =
    cancel-requests o (cancel_as_read o (begin db t)).1.durable u h taken
    ∙ ap (λ l. o.total ∷ l) (cancel-requests o db t h taken)

module _ (user : Identity) (db : OrdersDb) (now : ℕ) (o : Order) (r : RestaurantSnapshot)
    (found : find order_key o.id db.orders ≡ some o)
    (house : find restaurant_key o.restaurant_id db.restaurants ≡ some r)
    (owner : manages user r ≡ true) where
  -- A restaurant that moves a paid order to REJECTED by the status route, and not by the route that
  -- rejects, asks for no refund, records none, and releases no stock.
  pub advance_status-rejects :
      o.status ≡ payment_success
      → let s = (advance_status user o.id rejected (begin db now)).1 in
        (find order_key o.id s.durable.orders
          ≡ some (record o { status = rejected; updated_at = now }))
        × (requested o.id refund s.durable.outbox ≡ requested o.id refund db.outbox)
        × (s.sent ≡ [])
  unfolding advance_status requested allowed
  advance_status-rejects p = (
    ground (
      arith,
      find-save order_key o.id (record o { status = rejected; updated_at = now }) db.orders,
    ),
    ground arith,
    ground arith,
  )

  -- A restaurant can move an order that waits for its payment to PAYMENT_SUCCESS by the status route:
  -- the order counts as paid while its payment status stays as it was.
  pub advance_status-unpaid :
      o.status ≡ payment_pending
      → find order_key o.id
          (advance_status user o.id payment_success (begin db now)).1.durable.orders
        ≡ some (record o { status = payment_success; updated_at = now })
  unfolding advance_status allowed
  advance_status-unpaid p = ground (
    arith,
    find-save order_key o.id (record o { status = payment_success; updated_at = now }) db.orders,
  )
