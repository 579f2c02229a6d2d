-- ===== src/Orders/Lifecycle.antt =====
-- services/orders/app/service.py: what a payment, a customer, a restaurant, a driver and the clock do
-- to an order. Each handler runs in a session of its own; those that read by `_locked_order` hold
-- the row to the end, so they run one after the other. `_deliver_status` does nothing.
use food_delivery_system.Base.{
  ℕ, ◌+◌, Bool, false, not, Option, none, some, pure, raise_if, or_raise, when, for_each, gets,
  commit, ◌>>=◌, ◌>>◌, select, length, ◌==◌, ltb, if◌then◌else◌, ◌&&◌, ◌||◌,
}
use food_delivery_system.Shared.Identity.{Identity, is_admin}
use food_delivery_system.Orders.Models.{
  OrderStatus, payment_success, restaurant_accepted, cancelled, rejected, success, refunded,
  RefundStatus, no_refund, full, Actor, Reason, payment_confirmed, payment_not_completed,
  acceptance_timeout, Order, RestaurantSnapshot, settle, refund,
}
use food_delivery_system.Orders.StateMachine.{customer_cancel_allowed, refund_on_cancel}
use food_delivery_system.Orders.Store.{
  Entity, cancel_not_allowed, not_found, forbidden_order, Act, get_order, get_restaurant, put_order,
}
use food_delivery_system.Orders.Actions.{
  is_payment_pending, is_payment_success, is_cancelled, is_delivered, is_full, apply_transition,
  locked_order, manages, owned_restaurant, restore_stock, emit_status, notify_restaurant,
  request_payment_action, FullOrder, load_full,
}

-- The part of `mark_paid` below its guard.
pay : Order → Act FullOrder
pay locked = do
  o ← apply_transition locked payment_success Actor.system (some payment_confirmed)
  o ← put_order (record o { payment_status = success })
  emit_status o
  notify_restaurant o
  commit
  load_full o.id

unfoldable pub mark_paid : ℕ → Act FullOrder
unfolding pay
mark_paid order_id = do
  o ← locked_order order_id
  if is_payment_pending o.status then pay o else load_full order_id

-- `_owned_restaurant` would not raise
abbrev pub may_manage : Identity → Option RestaurantSnapshot → Bool
may_manage user none = false
may_manage user (some r) = manages user r

-- Any refusal of `_owned_restaurant` becomes "You cannot view this order".
unfoldable pub get_order_for_user : Identity → ℕ → Act Order
get_order_for_user user order_id = do
  o ← or_raise (← get_order order_id) (not_found Entity.order order_id)
  snapshot ← get_restaurant o.restaurant_id
  raise_if (not (user.user_id == o.customer_id || is_admin user.role || may_manage user snapshot))
      forbidden_order
  pure o

-- `_record_refund`
abbrev pub with_refund : RefundStatus → Order → Order
with_refund full o = record o {
  refund_status = full;
  refund_amount = o.total;
  payment_status = refunded;
}
with_refund status o = record o { refund_status = status; refund_amount = 0 }

-- `cancel_by_customer` below its first line, on the order as it was read there: the row is not
-- locked, so another request may have committed in between.
unfoldable pub cancel_as_read : Order → Act FullOrder
cancel_as_read read = do
  raise_if (not (customer_cancel_allowed read.status)) cancel_not_allowed
  o ← apply_transition read cancelled Actor.customer none
  let outcome = refund_on_cancel read.status Actor.customer
  o ← put_order (with_refund outcome (record o { cancelled_by = some Actor.customer }))
  restore_stock o
  emit_status o
  when (is_full outcome) (request_payment_action o refund)
  commit
  load_full o.id

unfoldable pub cancel_by_customer : Identity → ℕ → Act FullOrder
cancel_by_customer user order_id = do cancel_as_read (← get_order_for_user user order_id)

unfoldable pub accept_by_restaurant : Identity → ℕ → Act FullOrder
accept_by_restaurant user order_id = do
  locked ← locked_order order_id
  owned_restaurant user locked.restaurant_id
  o ← apply_transition locked restaurant_accepted Actor.restaurant none
  emit_status o
  commit
  load_full order_id

unfoldable pub reject_by_restaurant : Identity → ℕ → Option Reason → Act FullOrder
reject_by_restaurant user order_id reason = do
  locked ← locked_order order_id
  owned_restaurant user locked.restaurant_id
  o ← apply_transition locked rejected Actor.restaurant reason
  o ←
      put_order (
        with_refund full
          (record o { cancelled_by = some Actor.restaurant; cancel_reason = reason }))
  restore_stock o
  emit_status o
  request_payment_action o refund
  commit
  load_full order_id

-- `if to == OrderStatus.CANCELLED`: the order and what is to be refunded
restaurant_cancels : OrderStatus → Order → Act (Order × RefundStatus)
restaurant_cancels current o = do
  let outcome = refund_on_cancel current Actor.restaurant
  o ← put_order (with_refund outcome (record o { cancelled_by = some Actor.restaurant }))
  restore_stock o
  pure (o, outcome)

unfoldable pub advance_status : Identity → ℕ → OrderStatus → Act FullOrder
unfolding restaurant_cancels
advance_status user order_id to = do
  locked ← locked_order order_id
  owned_restaurant user locked.restaurant_id
  moved ← apply_transition locked to Actor.restaurant none
  (o, outcome) ←
      if is_cancelled to then restaurant_cancels locked.status moved else pure (moved, no_refund)
  emit_status o
  if is_delivered to
      then request_payment_action o settle
      else when (is_full outcome) (request_payment_action o refund)
  commit
  load_full order_id

unfoldable pub driver_advance : ℕ → OrderStatus → Act FullOrder
driver_advance order_id to = do
  locked ← locked_order order_id
  o ← apply_transition locked to Actor.driver none
  emit_status o
  when (is_delivered to) (request_payment_action o settle)
  commit
  load_full order_id

-- settings.payment_window_seconds and settings.restaurant_accept_timeout_seconds
abbrev pub payment_window_seconds : ℕ
payment_window_seconds = 900

abbrev pub restaurant_accept_timeout_seconds : ℕ
restaurant_accept_timeout_seconds = 300

-- `status == … and updated_at < now - window`
abbrev pub is_unpaid_since : ℕ → Order → Bool
is_unpaid_since now o =
    is_payment_pending o.status && ltb (o.updated_at + payment_window_seconds) now

abbrev pub is_unaccepted_since : ℕ → Order → Bool
is_unaccepted_since now o =
    is_payment_success o.status && ltb (o.updated_at + restaurant_accept_timeout_seconds) now

-- the loop body of `expire_unpaid_orders`
unfoldable pub expire_unpaid : Order → Act (Unit {0})
expire_unpaid stale = do
  o ← apply_transition stale cancelled Actor.system (some payment_not_completed)
  o ← put_order (
      with_refund no_refund
        (record o { cancelled_by = some Actor.system; cancel_reason = some payment_not_completed }))
  restore_stock o
  emit_status o

unfoldable pub expire_unpaid_orders : ℕ → Act ℕ
expire_unpaid_orders now = do
  stale ← gets (λ db. select (is_unpaid_since now) db.orders)
  for_each expire_unpaid stale
  commit
  pure (length stale)

-- the loop body of `expire_pending_acceptances`
unfoldable pub expire_acceptance : Order → Act (Unit {0})
expire_acceptance stale = do
  o ← apply_transition stale cancelled Actor.system (some acceptance_timeout)
  o ← put_order (with_refund full (record o { cancelled_by = some Actor.system }))
  restore_stock o
  emit_status o
  request_payment_action o refund

unfoldable pub expire_pending_acceptances : ℕ → Act ℕ
expire_pending_acceptances now = do
  stale ← gets (λ db. select (is_unaccepted_since now) db.orders)
  for_each expire_acceptance stale
  commit
  pure (length stale)
