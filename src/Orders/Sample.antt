-- ===== src/Orders/Sample.antt =====
-- A consistent orders database: a paid order 1, an order 2 that waits for its card payment, restaurant
-- 7 of owner 70, customer 5.
use mathlib.Core.Path.{subst}
use food_delivery_system.Base.{
  ℕ, ◌≤◌, ◌≡◌, refl, Option, none, some, List, [], ◌∷◌, String, find, inl, inr, Bool-cases, arith,
  ◌==◌,
}
use food_delivery_system.Shared.Identity.{Identity, Role}
use food_delivery_system.Orders.Models.{
  OrderStatus, created, payment_pending, payment_success, PaymentMethod, pending, success,
  no_refund, Actor, Order, OrderStatusEvent, RestaurantSnapshot, OrdersDb,
}
use food_delivery_system.Orders.Store.{order_key, restaurant_key}
use food_delivery_system.Orders.StateMachine.{allowed}
use food_delivery_system.Orders.Invariant.{
  latest_status, requested, OrderIsConsistent, IsUnused, IsConsistent,
}

abbrev pub owner : Identity
owner = record { user_id = 70; role = Role.restaurant }

abbrev pub buyer : Identity
buyer = record { user_id = 5; role = Role.customer }

abbrev pub stranger : Identity
stranger = record { user_id = 6; role = Role.customer }

abbrev pub paid_order : Order
paid_order = record {
  id = 1;
  customer_id = 5;
  restaurant_id = 7;
  address_id = 3;
  status = payment_success;
  payment_method = PaymentMethod.cod;
  payment_status = success;
  subtotal = 450;
  delivery_fee = 0;
  total = 450;
  refund_status = no_refund;
  refund_amount = 0;
  cancelled_by = none;
  cancel_reason = none;
  created_at = 100;
  updated_at = 100;
}

abbrev pub waiting_order : Order
waiting_order = record paid_order {
  id = 2;
  status = payment_pending;
  payment_method = PaymentMethod.card;
  payment_status = pending;
}

abbrev pub event : ℕ → Option OrderStatus → OrderStatus → OrderStatusEvent
event id from to = record {
  order_id = id;
  from_status = from;
  to_status = to;
  actor = Actor.system;
  reason = none;
  at = 100;
}

abbrev pub house : RestaurantSnapshot
house = record { restaurant_id = 7; owner_id = 70; name = "Spice" }

abbrev pub sample : OrdersDb
sample = record {
  orders = paid_order ∷ waiting_order ∷ [];
  next_order_id = 3;
  order_items = [];
  status_events =
      event 2 (some created) payment_pending
      ∷ event 1 (some payment_pending) payment_success
      ∷ event 2 none created
      ∷ event 1 (some created) payment_pending
      ∷ event 1 none created
      ∷ [];
  addresses =
      record { address_id = 3; user_id = 5; city = "Pune"; latitude = none; longitude = none } ∷ [];
  customers = [];
  restaurants = house ∷ [];
  outbox = [];
}

pub sample-paid : find order_key 1 sample.orders ≡ some paid_order
unfolding find
sample-paid = refl

pub sample-waiting : find order_key 2 sample.orders ≡ some waiting_order
unfolding find
sample-waiting = refl

pub sample-house : find restaurant_key 7 sample.restaurants ≡ some house
unfolding find
sample-house = refl

paid-IsConsistent : OrderIsConsistent sample paid_order
unfolding latest_status requested
paid-IsConsistent = record {
  audited = refl;
  refunds = refl;
  settles = refl;
  amount = refl;
  closed = λ h. ground arith;
}

waiting-IsConsistent : OrderIsConsistent sample waiting_order
unfolding latest_status requested
waiting-IsConsistent = record {
  audited = refl;
  refunds = refl;
  settles = refl;
  amount = refl;
  closed = λ h. ground arith;
}

sample-each :
    (k : ℕ) (o : Order) → find order_key k sample.orders ≡ some o → OrderIsConsistent sample o
unfolding find
sample-each k o e = elim (Bool-cases (1 == k)) [
  | inl first ↦
      let same : paid_order ≡ o = ground arith in
      subst (OrderIsConsistent sample) same paid-IsConsistent
  | inr later ↦
      let same : waiting_order ≡ o = ground arith in
      subst (OrderIsConsistent sample) same waiting-IsConsistent
]

sample-IsUnused : (k : ℕ) → 3 ≤ k → IsUnused sample k
unfolding find latest_status requested
sample-IsUnused k h = record {
  no_order = ground arith;
  no_event = ground arith;
  no_refund = refl;
  no_settle = refl;
}

pub sample-IsConsistent : IsConsistent sample
unfolding find latest_status allowed
sample-IsConsistent = record {
  each = sample-each;
  keyed = (refl, (refl, tt));
  trail = ground arith;
  unused = sample-IsUnused;
}

abbrev pub const_hash : List (ℕ × ℕ) → String
const_hash _ = "digest"

abbrev pub trimmed : String → String
trimmed t = t
