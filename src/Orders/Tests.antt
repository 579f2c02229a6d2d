-- ===== src/Orders/Tests.antt =====
-- The theorems on histories and sweeps at the sample database.
mod Handlers
mod Shop
use mathlib.Core.Path.{subst}
use food_delivery_system.Base.{
  ℕ, ◌≤◌, ◌<◌, ◌+◌, ◌≡◌, ◌≢◌, ◌↔◌, refl, Bool, true, false, Option, none, some, List, [], ◌∷◌,
  String, length, find, begin, err, inl, inr, Bool-cases, arith, ◌==◌, if◌then◌else◌, select, ok,
  save, for_each,
}
use food_delivery_system.Shared.Identity.{Identity, Role}
use food_delivery_system.Orders.Models.{
  OrderStatus, created, payment_pending, payment_success, restaurant_accepted, preparing, rejected,
  cancelled, PaymentMethod, PaymentStatus, pending, success, no_refund, full, Actor, Reason,
  cod_to_be_collected, Order, OrderStatusEvent, RestaurantSnapshot, settle, refund, OrdersDb,
}
use food_delivery_system.Orders.Store.{order_key, restaurant_key}
use food_delivery_system.Orders.StateMachine.{allowed, is_pre_prep, is_unpaid, refund_on_cancel}
use food_delivery_system.Orders.StateMachine.Graph.{◌⟶◌, allowed_iff, IsOpen}
use food_delivery_system.Orders.Actions.{is_payment_pending}
use food_delivery_system.Orders.Lifecycle.{
  cancel_as_read, cancel_by_customer, accept_by_restaurant, reject_by_restaurant, advance_status,
  driver_advance, mark_paid, get_order_for_user, with_refund, expire_unpaid_orders,
  expire_pending_acceptances, is_unpaid_since, is_unaccepted_since,
}
use food_delivery_system.Orders.Requests.{Request, serve, serve_all}
use food_delivery_system.Orders.Requests.Invariance.{serve_all-IsConsistent}
use food_delivery_system.Orders.StateMachine.Graph.{◌⟶*◌}
use food_delivery_system.Orders.Requests.Money.{status-reached}
use food_delivery_system.Orders.Lifecycle.{expire_unpaid_orders, is_unpaid_since}
use food_delivery_system.Orders.Refinement.Expiry.{expired_row, expire_unpaid_orders-sweeps}
use food_delivery_system.Orders.Invariant.{latest_status}
use food_delivery_system.Orders.Requests.Bounds.{rows_of, serve_all-rows_of}
use food_delivery_system.Orders.Requests.Money.{commands-once, status-reached}
use food_delivery_system.Orders.Refinement.Expiry.{
  sweep_row, expired_row, unaccepted_row, expire_unpaid_orders-sweeps,
  expire_pending_acceptances-sweeps,
}
use food_delivery_system.Orders.Invariant.{
  latest_status, requested, due_refund, due_settle, OrderIsConsistent, IsUnused, IsConsistent,
}
use food_delivery_system.Orders.Sample.{
  owner, buyer, paid_order, waiting_order, sample, sample-IsConsistent, const_hash, trimmed,
}

-- The customer tries to accept the paid order, and then the restaurant rejects it.
abbrev history : List (ℕ × Request)
history = (200, Request.accept buyer 1) ∷ (210, Request.reject owner 1 none) ∷ []

abbrev rejected_order : Order
rejected_order = record paid_order {
  status = rejected;
  refund_status = full;
  refund_amount = 450;
  payment_status = PaymentStatus.refunded;
  cancelled_by = some Actor.restaurant;
  updated_at = 210;
}

rejected_later :
    find order_key 1 (serve_all const_hash trimmed history sample).orders ≡ some rejected_order
unfolding find save serve_all serve accept_by_restaurant reject_by_restaurant allowed
rejected_later = refl

commands-once_example :
    let later = serve_all const_hash trimmed history sample in
    (requested 1 refund later.outbox ≡ due_refund rejected_order)
    × (requested 1 settle later.outbox ≡ due_settle rejected_order)
    × (length (requested 1 refund later.outbox) + length (requested 1 settle later.outbox) ≤ 1)
commands-once_example =
    commands-once const_hash trimmed history sample sample-IsConsistent 1 rejected_order
      rejected_later

serve_all-IsConsistent_example : IsConsistent (serve_all const_hash trimmed history sample)
serve_all-IsConsistent_example =
    serve_all-IsConsistent const_hash trimmed history sample sample-IsConsistent

expire_pending_acceptances-sweeps_example :
    let (r, s) = expire_pending_acceptances 500 (begin sample 500) in
    (r ≡ ok (length (select (is_unaccepted_since 500) sample.orders)))
    × ((k : ℕ)
        → find order_key k s.durable.orders
          ≡ sweep_row
              (is_unaccepted_since 500)
              (λ o. unaccepted_row o 500)
              (find order_key k sample.orders))
    × IsConsistent s.durable
expire_pending_acceptances-sweeps_example =
    expire_pending_acceptances-sweeps 500 500 sample sample-IsConsistent

allowed_iff_example : (allowed preparing cancelled ≡ true) ↔ (preparing ⟶ cancelled)
allowed_iff_example = allowed_iff preparing cancelled

serve_all-rows_of_example :
    rows_of 1 (serve_all const_hash trimmed history sample).status_events ≤ 9
serve_all-rows_of_example =
    serve_all-rows_of const_hash trimmed history sample sample-IsConsistent 1

expire_unpaid_orders-sweeps_example :
    let (r, s) = expire_unpaid_orders 1100 (begin sample 1100) in
    (r ≡ ok (length (select (is_unpaid_since 1100) sample.orders)))
    × ((k : ℕ)
        → find order_key k s.durable.orders
          ≡ sweep_row
              (is_unpaid_since 1100)
              (λ o. expired_row o 1100)
              (find order_key k sample.orders))
    × IsConsistent s.durable
expire_unpaid_orders-sweeps_example =
    expire_unpaid_orders-sweeps 1100 1100 sample sample-IsConsistent

status-reached_example :
    (latest_status 1 (serve_all const_hash trimmed history sample).status_events ≡ some rejected)
    × (created ⟶* rejected)
status-reached_example =
    status-reached const_hash trimmed history sample sample-IsConsistent 1 rejected_order
      rejected_later
