-- ===== src/Orders/Actions.antt =====
-- services/orders/app/service.py and state_machine.py: the steps that the handlers share.
use mathlib.Core.Option
use food_delivery_system.Base.{
  ℕ, Bool, true, false, not, Option, none, some, List, String, pure, raise_if, or_raise, gets,
  get_now, send, ◌>>=◌, ◌>>◌, find, ◌==◌, if◌then◌else◌, ◌||◌,
}
use food_delivery_system.Shared.Identity.{Identity, is_admin}
use food_delivery_system.Shared.OutboxEvent.{Topic}
use food_delivery_system.Orders.Models.{
  OrderStatus, payment_pending, payment_success, delivered, cancelled, RefundStatus, full, Actor,
  Reason, Order, OrderItem, OrderStatusEvent, CustomerSnapshot, RestaurantSnapshot, OrderPayload,
  PaymentAction, Payload, OrdersDb,
}
use food_delivery_system.Orders.StateMachine.{allowed}
use food_delivery_system.Orders.Store.{
  Entity, illegal_transition, not_found, forbidden_restaurant, release_stock, Act, address_key,
  customer_key, restaurant_key, get_order, get_restaurant, put_order, add_status_event,
  record_event, lines_of, events_of,
}

abbrev pub is_payment_pending : OrderStatus → Bool
is_payment_pending payment_pending = true
is_payment_pending _ = false

abbrev pub is_payment_success : OrderStatus → Bool
is_payment_success payment_success = true
is_payment_success _ = false

abbrev pub is_cancelled : OrderStatus → Bool
is_cancelled cancelled = true
is_cancelled _ = false

abbrev pub is_delivered : OrderStatus → Bool
is_delivered delivered = true
is_delivered _ = false

abbrev pub is_full : RefundStatus → Bool
is_full full = true
is_full _ = false

abbrev pub assert_transition_allowed : OrderStatus → OrderStatus → Act (Unit {0})
assert_transition_allowed current to =
    raise_if (not (allowed current to)) (illegal_transition current to)

abbrev pub apply_transition : Order → OrderStatus → Actor → Option Reason → Act Order
apply_transition o to actor reason = do
  assert_transition_allowed o.status to
  at ← get_now
  add_status_event (record {
    order_id = o.id;
    from_status = some o.status;
    to_status = to;
    actor = actor;
    reason = reason;
    at = at;
  })
  put_order (record o { status = to })

-- `_locked_order`
abbrev pub locked_order : ℕ → Act Order
locked_order order_id = do or_raise (← get_order order_id) (not_found Entity.order order_id)

-- `_owned_restaurant`
abbrev pub manages : Identity → RestaurantSnapshot → Bool
manages user r = r.owner_id == user.user_id || is_admin user.role

abbrev pub owned_restaurant : Identity → ℕ → Act RestaurantSnapshot
owned_restaurant user restaurant_id = do
  snapshot ← or_raise (← get_restaurant restaurant_id) (not_found Entity.restaurant restaurant_id)
  raise_if (not (manages user snapshot)) forbidden_restaurant
  pure snapshot

-- `_restore_stock`
abbrev pub restore_stock : Order → Act (Unit {0})
restore_stock o = do
  lines ← gets (λ db. lines_of o.id db.order_items)
  send (release_stock o.restaurant_id lines)

-- `_display_name` of a customer's snapshot
abbrev pub display_name : Option CustomerSnapshot → String
display_name none = ""
display_name (some c) = c.display_name

abbrev pub order_payload : Order → OrdersDb → OrderPayload
order_payload o db =
    let customer = find customer_key o.customer_id db.customers in
    let address = find address_key o.address_id db.addresses in
    let restaurant = find restaurant_key o.restaurant_id db.restaurants in
    record {
      order_id = o.id;
      status = o.status;
      customer_id = o.customer_id;
      customer_name = display_name customer;
      restaurant_id = o.restaurant_id;
      restaurant_name = Option.map (λ r. r.name) restaurant;
      total = o.total;
      payment_method = o.payment_method;
      payment_status = o.payment_status;
      destination_latitude = Option.bind address (λ a. a.latitude);
      destination_longitude = Option.bind address (λ a. a.longitude);
    }

-- `_emit_status`
abbrev pub emit_status : Order → Act (Unit {0})
emit_status o = do
  payload ← gets (order_payload o)
  record_event Topic.order_events (some o.id) (Payload.order_status payload)

-- `_notify`, with the one message that this service sends
abbrev pub notify : ℕ → Order → Act (Unit {0})
notify user_id o =
    record_event Topic.notification_events (if o.id == 0 then none else some o.id)
      (Payload.new_order user_id o.id o.total)

-- `_notify_restaurant`
abbrev pub notify_snapshot : Option RestaurantSnapshot → Order → Act (Unit {0})
notify_snapshot none o = pure tt
notify_snapshot (some r) o = notify r.owner_id o

abbrev pub notify_restaurant : Order → Act (Unit {0})
notify_restaurant o = do notify_snapshot (← get_restaurant o.restaurant_id) o

-- `_request_payment_action`
abbrev pub request_payment_action : Order → PaymentAction → Act (Unit {0})
request_payment_action o action =
    record_event Topic.payment_commands (some o.id) (Payload.payment_command o.id action o.total)

-- `_load_full`: the order, its lines, and its audit rows, newest first.
pub record FullOrder : Type 0 where
  pub order : Order
  pub items : List OrderItem
  pub events : List OrderStatusEvent

abbrev pub load_full : ℕ → Act FullOrder
load_full order_id = do
  o ← or_raise (← get_order order_id) (not_found Entity.order order_id)
  items ← gets (λ db. lines_of order_id db.order_items)
  events ← gets (λ db. events_of order_id db.status_events)
  pure (record { order = o; items = items; events = events })
