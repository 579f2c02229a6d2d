-- ===== src/Orders/Checkout.antt =====
-- services/orders/app/checkout.py, and `create_order_from_checkout` of service.py. The answer of the
-- restaurants service to `/validate-order` is an argument.
pub mod Placed
pub mod Laws
pub mod Locks
use Prim.Native.String.{String}
use text.Mathlib.Text.{◌==◌ as str_eq}
use food_delivery_system.Base.{
  ℕ, ◌+◌, Bool, true, false, not, Option, none, some, List, [], ◌∷◌, ◌++◌, map, Result, ok, err,
  Session, Action, pure, raise, raise_if, or_raise, or_else, when, gets, get_now, modify, send,
  commit, ◌>>=◌, ◌>>◌, find, save, ◌==◌, if◌then◌else◌, ◌||◌, ◌&&◌, ltb,
}
use food_delivery_system.Shared.Identity.{Identity}
use food_delivery_system.Orders.Models.{
  created, payment_pending, payment_success, PaymentMethod, cod, card, PaymentStatus, pending,
  success, no_refund, Actor, cod_to_be_collected, Order, OrderItem, AddressSnapshot, OrdersDb,
}
use food_delivery_system.Orders.Store.{
  Entity, AppException, checkout_in_progress, empty_cart, price_mismatch_refresh, checkout_failed,
  checkout_error, not_found, service_unavailable, Call, validate_order, Act, order_key, get_address,
  put_order, add_status_event,
}
use food_delivery_system.Orders.Actions.{
  is_payment_success, apply_transition, emit_status, notify_restaurant, FullOrder, load_full,
}
use food_delivery_system.Orders.Cart.{
  Lock, CartItemView, CartView, Redis, clear_cart, get_cart, is_empty,
}

pub record CheckoutRequest : Type 0 where
  pub address_id : ℕ
  pub price_hash : String
  pub payment_method : PaymentMethod

pub record ValidatedOrderItem : Type 0 where
  pub menu_item_id : ℕ
  pub name : String
  pub unit_price : ℕ
  pub quantity : ℕ
  pub line_total : ℕ

pub record ValidatedOrder : Type 0 where
  pub restaurant_id : ℕ
  pub address_id : ℕ
  pub items : List ValidatedOrderItem
  pub subtotal : ℕ

-- The answer: none within the timeout or a 5xx, a status, or a verdict.
pub data Answer : Type 0 where
  unavailable : Answer
  status_404 status_4xx : Answer
  refused : Option String → Answer
  accepted : ℕ → List ValidatedOrderItem → ℕ → Answer

-- `verdict.get("code") or "CHECKOUT_FAILED"`
abbrev pub refusal : Option String → AppException
refusal none = checkout_failed
refusal (some code) = if str_eq code "" then checkout_failed else checkout_error code

unfoldable pub read_answer : Answer → ℕ → ℕ → Result AppException ValidatedOrder
read_answer unavailable rid address_id = err service_unavailable
read_answer status_404 rid address_id = err (not_found Entity.restaurant rid)
read_answer status_4xx rid address_id = err checkout_failed
read_answer (refused code) rid address_id = err (refusal code)
read_answer (accepted restaurant_id items subtotal) rid address_id = ok (record {
  restaurant_id = restaurant_id;
  address_id = address_id;
  items = items;
  subtotal = subtotal;
})

abbrev pub from_result : {A : Type 0} → Result AppException A → Act A
from_result (ok a) = pure a
from_result (err e) = raise e

-- `address is None or address.user_id != customer_id`
abbrev pub own_address : ℕ → Option AddressSnapshot → Option AddressSnapshot
own_address customer_id none = none
own_address customer_id (some a) = if a.user_id == customer_id then some a else none

abbrev pub asked : CartItemView → ℕ × ℕ × ℕ
asked i = (i.menu_item_id, i.quantity, i.unit_price)

unfoldable pub validate_checkout : Answer → CartView → ℕ → CheckoutRequest → Act ValidatedOrder
validate_checkout answer cart customer_id request = do
  raise_if (is_empty cart.items) empty_cart
  rid ← or_raise cart.restaurant_id empty_cart
  raise_if (not (str_eq request.price_hash cart.price_hash)) price_mismatch_refresh
  stored ← get_address request.address_id
  address ← or_raise (own_address customer_id stored) (not_found Entity.address request.address_id)
  send (validate_order rid (map asked cart.items))
  from_result (read_answer answer rid address.address_id)

abbrev pub new_order : Identity → CheckoutRequest → ValidatedOrder → ℕ → ℕ → Order
new_order user request v id at = record {
  id = id;
  customer_id = user.user_id;
  restaurant_id = v.restaurant_id;
  address_id = v.address_id;
  status = created;
  payment_method = request.payment_method;
  payment_status = pending;
  subtotal = v.subtotal;
  delivery_fee = 0;
  total = v.subtotal;
  refund_status = no_refund;
  refund_amount = 0;
  cancelled_by = none;
  cancel_reason = none;
  created_at = at;
  updated_at = at;
}

abbrev pub order_line : ℕ → ValidatedOrderItem → OrderItem
order_line id it = record {
  order_id = id;
  menu_item_id = it.menu_item_id;
  name = it.name;
  unit_price = it.unit_price;
  quantity = it.quantity;
  line_total = it.line_total;
}

-- `session.add(order)` and `flush`: the sequence gives the id.
abbrev pub insert_order : Identity → CheckoutRequest → ValidatedOrder → Act Order
insert_order user request v = do
  at ← get_now
  id ← gets (λ db. db.next_order_id)
  let o = new_order user request v id at
  modify (λ db. record db {
    orders = save order_key o db.orders;
    next_order_id = id + 1;
    order_items = db.order_items ++ map (order_line id) v.items;
  })
  pure o

abbrev pub is_cod : PaymentMethod → Bool
is_cod cod = true
is_cod card = false

-- COD counts as settled at once; a card order waits.
abbrev pub settle_cod : Order → Act Order
settle_cod o = do
  o ← apply_transition o payment_success Actor.system (some cod_to_be_collected)
  put_order (record o { payment_status = success })

-- `create_order_from_checkout` from the validated cart to the commit
unfoldable pub place : Identity → CheckoutRequest → ValidatedOrder → Act Order
place user request v = do
  o ← insert_order user request v
  at ← get_now
  add_status_event (record {
    order_id = o.id;
    from_status = none;
    to_status = created;
    actor = Actor.system;
    reason = none;
    at = at;
  })
  o ← apply_transition o payment_pending Actor.system none
  o ← if is_cod o.payment_method then settle_cod o else pure o
  emit_status o
  when (is_payment_success o.status) (notify_restaurant o)
  commit
  pure o

-- The database session and Redis together.
abbrev pub Shop : Type 0
Shop = Session OrdersDb Call × Redis

abbrev pub in_db : {A : Type 0} → Act A → Action AppException Shop A
in_db m (s, r) = let (a, s') = m s in (a, (s', r))

abbrev pub in_redis : (Redis → Redis) → Action AppException Shop (Unit {0})
in_redis f (s, r) = (ok tt, (s, f r))

-- `try: body finally: cleanup`
abbrev pub finally :
    {A : Type 0} → Action AppException Shop A → (Redis → Redis) → Action AppException Shop A
finally body cleanup s = let (a, (s', r')) = body s in (a, (s', cleanup r'))

-- `_LOCK_TTL`
abbrev pub lock_ttl : ℕ
lock_ttl = 10

unfoldable pub is_locked : ℕ → ℕ → List Lock → Bool
is_locked now u [] = false
is_locked now u (l ∷ ls) = (l.user_id == u && ltb now l.expires_at) || is_locked now u ls

-- `redis.set(lock_key, "1", nx=True, ex=_LOCK_TTL)`; `none` where it is not acquired
unfoldable pub acquire_lock : ℕ → ℕ → Redis → Option Redis
acquire_lock now u r =
    if is_locked now u r.locks
    then none
    else some (record r { locks = record { user_id = u; expires_at = now + lock_ttl } ∷ r.locks })

unfoldable pub unlock : ℕ → List Lock → List Lock
unlock u [] = []
unlock u (l ∷ ls) = let rest = unlock u ls in if l.user_id == u then rest else l ∷ rest

-- `redis.delete(lock_key)`, whoever set the key
abbrev pub release_lock : ℕ → Redis → Redis
release_lock u r = record r { locks = unlock u r.locks }

module _ (sha256 : List (ℕ × ℕ) → String) where
  unfoldable pub checkout_body :
      Answer → Identity → CheckoutRequest → Action AppException Shop FullOrder
  checkout_body answer user request (s, r) =
      (do
        v ← in_db (validate_checkout answer (get_cart sha256 user.user_id r) user.user_id request)
        o ← in_db (place user request v)
        in_redis (clear_cart user.user_id)
        in_db (load_full o.id))
        (s, r)

  abbrev checkout_locked :
      Answer → Identity → CheckoutRequest → Option Redis → Action AppException Shop FullOrder
  checkout_locked answer user request none (s, r) = (err checkout_in_progress, (s, r))
  checkout_locked answer user request (some held) (s, r) =
      finally (checkout_body answer user request) (release_lock user.user_id) (s, held)

  unfoldable pub create_order_from_checkout :
      Answer → Identity → CheckoutRequest → Action AppException Shop FullOrder
  create_order_from_checkout answer user request (s, r) =
      checkout_locked answer user request (acquire_lock s.now user.user_id r) (s, r)
