-- ===== src/Orders/Requests/Invariance.antt =====
-- The books stay in order under every request, and so under every history of requests.
use mathlib.Core.Path.{subst}
use food_delivery_system.Base.{
  ℕ, ◌≡◌, sym, Bool, true, false, Option, none, some, List, [], ◌∷◌, String, if◌then◌else◌, begin,
  Session, pure, arith,
}
use food_delivery_system.Orders.Models.{
  OrderStatus, AddressSnapshot, CustomerSnapshot, RestaurantSnapshot, OrdersDb,
}
use food_delivery_system.Orders.Store.{Act, Call}
use food_delivery_system.Orders.Consumer.{
  ignore, or_rollback, apply_payment_event, apply_delivery_event, apply_address_event,
  apply_restaurant_event, apply_user_event, is_succeeded, delivery_target, pay_for, deliver_to,
  copy_address, copy_restaurant, copy_customer, is_customer, AddressEvent, RestaurantEvent,
  UserEvent,
}
use food_delivery_system.Orders.Lifecycle.{mark_paid, driver_advance}
use food_delivery_system.Orders.Invariant.{IsConsistent}
use food_delivery_system.Orders.Moves.{Change-IsConsistent}
use food_delivery_system.Orders.Refinement.Payment.{mark_paid-Change}
use food_delivery_system.Orders.Refinement.Driver.{driver_advance-Change}
use food_delivery_system.Orders.Refinement.Customer.{cancel_by_customer-Change}
use food_delivery_system.Orders.Refinement.Restaurant.{
  accept_by_restaurant-Change, reject_by_restaurant-Change, advance_status-Change,
}
use food_delivery_system.Orders.Refinement.Expiry.{
  expire_unpaid_orders-sweeps, expire_pending_acceptances-sweeps,
}
use food_delivery_system.Orders.Checkout.Laws.{checkout-IsConsistent}
use food_delivery_system.Orders.Requests.{
  Request, checkout, cancel, accept, reject, set_status, expire_acceptances, expire_unpaid,
  payment_event, delivery_event, address_event, restaurant_event, user_event, serve, serve_all,
}

-- The read-models play no part in the books.
snapshots-IsConsistent :
    (db : OrdersDb) (a : List AddressSnapshot) (c : List CustomerSnapshot)
    (r : List RestaurantSnapshot)
    → IsConsistent db
    → IsConsistent (record db { addresses = a; customers = c; restaurants = r })
snapshots-IsConsistent db a c r h = record {
  each = λ k o e.
      let x = h.each k o e in
      record {
        audited = x.audited;
        refunds = x.refunds;
        settles = x.settles;
        amount = x.amount;
        closed = x.closed;
      };
  keyed = h.keyed;
  trail = h.trail;
  unused = λ k l.
      let x = h.unused k l in
      record {
        no_order = x.no_order;
        no_event = x.no_event;
        no_refund = x.no_refund;
        no_settle = x.no_settle;
      };
}

abbrev Kept : OrdersDb → Session OrdersDb Call → Type 0
Kept db s = IsConsistent db → IsConsistent s.durable

ignore-session : {A : Type 0} (m : Act A) (s : Session OrdersDb Call) → (ignore m s).1 ≡ (m s).1
ignore-session m s = ground arith

or_rollback-durable :
    {A : Type 0} (m : Act A) (s : Session OrdersDb Call)
    → (or_rollback m s).1.durable ≡ (m s).1.durable
or_rollback-durable m s = ground arith

pay_for-Kept :
    (id : Option ℕ) (b : Bool) (db : OrdersDb) (now : ℕ) → Kept db (pay_for id b (begin db now)).1
pay_for-Kept (some id) true db now c =
    subst (λ s. IsConsistent s.durable) (sym (ignore-session (mark_paid id) (begin db now)))
      (Change-IsConsistent (mark_paid-Change id db now) c)
pay_for-Kept _ _ db now c = c

deliver_to-Kept :
    (id : Option ℕ) (t : Option OrderStatus) (db : OrdersDb) (now : ℕ)
    → Kept db (deliver_to id t (begin db now)).1
deliver_to-Kept (some id) (some t) db now c =
    subst IsConsistent (sym (or_rollback-durable (driver_advance id t) (begin db now)))
      (Change-IsConsistent (driver_advance-Change id t db now) c)
deliver_to-Kept _ _ db now c = c

copy_address-Kept :
    (id : Option ℕ) (p : AddressEvent) (db : OrdersDb) (now : ℕ)
    → Kept db (copy_address id p (begin db now)).1
copy_address-Kept none p db now c = c
copy_address-Kept (some id) p db now c = snapshots-IsConsistent db _ db.customers db.restaurants c

copy_restaurant-Kept :
    (id : Option ℕ) (p : RestaurantEvent) (db : OrdersDb) (now : ℕ)
    → Kept db (copy_restaurant id p (begin db now)).1
copy_restaurant-Kept none p db now c = c
copy_restaurant-Kept (some id) p db now c = snapshots-IsConsistent db db.addresses db.customers _ c

module _ (sha256 : List (ℕ × ℕ) → String) (strip : String → String) where
  copy_customer-Kept :
      (b : Bool) (id : Option ℕ) (p : UserEvent) (db : OrdersDb) (now : ℕ)
      → Kept db ((if b then copy_customer strip id p else pure tt) (begin db now)).1
  copy_customer-Kept false id p db now c = c
  copy_customer-Kept true none p db now c = c
  copy_customer-Kept true (some id) p db now c =
      snapshots-IsConsistent db db.addresses _ db.restaurants c

  -- Every request, whatever it is and however it ends, keeps the orders database consistent: the
  -- audit trail ends at each order's status by legal transitions, and the payment commands in the
  -- outbox are those that the orders' refunds and deliveries call for.
  pub serve-IsConsistent :
      (r : Request) (db : OrdersDb) (now : ℕ)
      → IsConsistent db
      → IsConsistent (serve sha256 strip r (begin db now)).durable
  unfolding serve apply_payment_event apply_delivery_event apply_address_event
      apply_restaurant_event apply_user_event
  serve-IsConsistent (checkout answer redis user request) db now c =
      checkout-IsConsistent sha256 answer user request db now redis c
  serve-IsConsistent (cancel user id) db now c =
      Change-IsConsistent (cancel_by_customer-Change user id db now) c
  serve-IsConsistent (accept user id) db now c =
      Change-IsConsistent (accept_by_restaurant-Change user id db now) c
  serve-IsConsistent (reject user id reason) db now c =
      Change-IsConsistent (reject_by_restaurant-Change user id reason db now) c
  serve-IsConsistent (set_status user id to) db now c =
      Change-IsConsistent (advance_status-Change user id to db now) c
  serve-IsConsistent (expire_acceptances at) db now c =
      (expire_pending_acceptances-sweeps at now db c).2
  serve-IsConsistent (expire_unpaid at) db now c = (expire_unpaid_orders-sweeps at now db c).2
  serve-IsConsistent (payment_event p) db now c =
      pay_for-Kept p.order_id (is_succeeded p.payment_status) db now c
  serve-IsConsistent (delivery_event p) db now c =
      deliver_to-Kept p.order_id (delivery_target p.status) db now c
  serve-IsConsistent (address_event p) db now c = copy_address-Kept p.address_id p db now c
  serve-IsConsistent (restaurant_event p) db now c = copy_restaurant-Kept p.restaurant_id p db now c
  serve-IsConsistent (user_event p) db now c =
      copy_customer-Kept (is_customer p.role) p.user_id p db now c

  -- Every history of requests, at whatever times and in whatever order, keeps the orders database
  -- consistent: each order's status is the one its newest audit row shows, the audit rows are legal
  -- transitions, and the refund and settlement commands are those that the order's state calls for.
  pub serve_all-IsConsistent :
      (history : List (ℕ × Request)) (db : OrdersDb)
      → IsConsistent db
      → IsConsistent (serve_all sha256 strip history db)
  unfolding serve_all
  serve_all-IsConsistent [] db c = c
  serve_all-IsConsistent ((now, r) ∷ rest) db c =
      serve_all-IsConsistent rest (serve sha256 strip r (begin db now)).durable
        (serve-IsConsistent r db now c)
