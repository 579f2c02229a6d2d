-- ===== src/Orders/Store.antt =====
-- The session of the orders service: the errors that it raises, and its reads and writes as actions.
use food_delivery_system.Base.{
  ℕ, Option, List, ◌∷◌, String, Session, Action, pure, gets, modify, get_now, find, save, ◌>>=◌,
  ◌>>◌, select, ◌==◌,
}
use food_delivery_system.Shared.OutboxEvent.{Topic, outbox_event}
use food_delivery_system.Orders.Models.{
  OrderStatus, Order, OrderItem, OrderStatusEvent, AddressSnapshot, CustomerSnapshot,
  RestaurantSnapshot, Payload, OrdersDb,
}

pub data Entity : Type 0 where
  order restaurant address menu_item cart_item : Entity

-- `AppException` with what tells its uses apart. A `checkout_error` carries the code of the verdict.
pub data AppException : Type 0 where
  illegal_transition : OrderStatus → OrderStatus → AppException
  cancel_not_allowed checkout_in_progress : AppException
  empty_cart price_mismatch_refresh checkout_failed : AppException
  checkout_error : String → AppException
  not_found : Entity → ℕ → AppException
  forbidden_restaurant forbidden_order : AppException
  item_unavailable other_restaurant not_your_order nothing_to_reorder : AppException
  service_unavailable : AppException

-- The calls to the restaurants service that a rollback does not undo. `validate_order` holds the
-- stock of the cart's items, here by id, quantity and price; `release_stock` puts the stock of these
-- lines back, and is best effort, so an answer is not waited for.
pub data Call : Type 0 where
  validate_order : ℕ → List (ℕ × ℕ × ℕ) → Call
  release_stock : ℕ → List OrderItem → Call

abbrev pub Act : Type 0 → Type 0
Act A = Action AppException (Session OrdersDb Call) A

abbrev pub order_key : Order → ℕ
order_key o = o.id

abbrev pub address_key : AddressSnapshot → ℕ
address_key a = a.address_id

abbrev pub customer_key : CustomerSnapshot → ℕ
customer_key c = c.user_id

abbrev pub restaurant_key : RestaurantSnapshot → ℕ
restaurant_key r = r.restaurant_id

-- `session.get(Order, order_id)`
abbrev pub get_order : ℕ → Act (Option Order)
get_order order_id = gets (λ db. find order_key order_id db.orders)

abbrev pub get_address : ℕ → Act (Option AddressSnapshot)
get_address address_id = gets (λ db. find address_key address_id db.addresses)

abbrev pub get_customer : ℕ → Act (Option CustomerSnapshot)
get_customer user_id = gets (λ db. find customer_key user_id db.customers)

abbrev pub get_restaurant : ℕ → Act (Option RestaurantSnapshot)
get_restaurant restaurant_id = gets (λ db. find restaurant_key restaurant_id db.restaurants)

-- A change of an order's row, whose `updated_at` has `onupdate`.
abbrev pub put_order : Order → Act Order
put_order o = do
  at ← get_now
  let o' = record o { updated_at = at }
  modify (λ db. record db { orders = save order_key o' db.orders })
  pure o'

abbrev pub add_status_event : OrderStatusEvent → Act (Unit {0})
add_status_event e = modify (λ db. record db { status_events = e ∷ db.status_events })

-- services/orders/app/outbox.py: an event joins the transaction; the caller commits.
abbrev pub record_event : Topic → Option ℕ → Payload → Act (Unit {0})
record_event topic key payload =
    modify (λ db. record db { outbox = outbox_event topic key payload ∷ db.outbox })

abbrev pub lines_of : ℕ → List OrderItem → List OrderItem
lines_of order_id = select (λ line. line.order_id == order_id)

abbrev pub events_of : ℕ → List OrderStatusEvent → List OrderStatusEvent
events_of order_id = select (λ e. e.order_id == order_id)
