-- ===== src/Orders/Requests.antt =====
-- Everything that changes orders_db, as requests that are served one after the other, each in a
-- session of its own.
pub mod Invariance
pub mod Money
pub mod Bounds
use food_delivery_system.Base.{ℕ, Option, List, [], ◌∷◌, String, begin, Session}
use food_delivery_system.Shared.Identity.{Identity}
use food_delivery_system.Orders.Models.{OrderStatus, Reason, OrdersDb}
use food_delivery_system.Orders.Store.{Call}
use food_delivery_system.Orders.Cart.{Redis}
use food_delivery_system.Orders.Checkout.{Answer, CheckoutRequest, create_order_from_checkout}
use food_delivery_system.Orders.Consumer.{
  PaymentEvent, DeliveryEvent, AddressEvent, RestaurantEvent, UserEvent, apply_payment_event,
  apply_delivery_event, apply_address_event, apply_restaurant_event, apply_user_event,
}
use food_delivery_system.Orders.Lifecycle.{
  cancel_by_customer, accept_by_restaurant, reject_by_restaurant, advance_status,
  expire_unpaid_orders, expire_pending_acceptances,
}

-- A checkout comes with what Redis holds and with the answer of the restaurants service.
pub data Request : Type 0 where
  checkout : Answer → Redis → Identity → CheckoutRequest → Request
  cancel accept : Identity → ℕ → Request
  reject : Identity → ℕ → Option Reason → Request
  set_status : Identity → ℕ → OrderStatus → Request
  expire_acceptances expire_unpaid : ℕ → Request
  payment_event : PaymentEvent → Request
  delivery_event : DeliveryEvent → Request
  address_event : AddressEvent → Request
  restaurant_event : RestaurantEvent → Request
  user_event : UserEvent → Request

module _ (sha256 : List (ℕ × ℕ) → String) (strip : String → String) where
  -- The session in which a request ends.
  unfoldable pub serve : Request → Session OrdersDb Call → Session OrdersDb Call
  serve (checkout answer redis user request) s =
      (create_order_from_checkout sha256 answer user request (s, redis)).1.0
  serve (cancel user id) s = (cancel_by_customer user id s).1
  serve (accept user id) s = (accept_by_restaurant user id s).1
  serve (reject user id reason) s = (reject_by_restaurant user id reason s).1
  serve (set_status user id to) s = (advance_status user id to s).1
  serve (expire_acceptances now) s = (expire_pending_acceptances now s).1
  serve (expire_unpaid now) s = (expire_unpaid_orders now s).1
  serve (payment_event p) s = (apply_payment_event p s).1
  serve (delivery_event p) s = (apply_delivery_event p s).1
  serve (address_event p) s = (apply_address_event p s).1
  serve (restaurant_event p) s = (apply_restaurant_event p s).1
  serve (user_event p) s = (apply_user_event strip p s).1

  -- A history: at which time which request came.
  unfoldable pub serve_all : List (ℕ × Request) → OrdersDb → OrdersDb
  serve_all [] db = db
  serve_all ((now, r) ∷ rest) db = serve_all rest (serve r (begin db now)).durable
