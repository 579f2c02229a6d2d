-- ===== src/Delivery/Requests.antt =====
-- Everything that changes the delivery database, as requests that are served one after the other, each in
-- a session of its own.
use food_delivery_system.Base.{ℕ, Bool, true, false, none, List, [], ◌∷◌, Session, begin}
use food_delivery_system.Shared.Identity.{Identity}
use food_delivery_system.Delivery.Models.{DeliveryDb, Call}
use food_delivery_system.Delivery.Drivers.{Radar}
use food_delivery_system.Delivery.Assignment.{
  accept_assignment, reject_assignment, pickup, deliver, reassign_delivery_for_order,
}
use food_delivery_system.Delivery.Consumer.{
  OrderEvent, UserEvent, RestaurantEvent, apply_order_event, apply_user_event,
  apply_restaurant_event,
}

-- What comes with a request that picks a driver is what GEOSEARCH answers then.
pub data Request : Type 0 where
  accept pick_up hand_over : ℕ → ℕ → Request
  reject : Radar → ℕ → ℕ → Request
  reassign : Identity → ℕ → ℕ → Request
  order_event : Radar → OrderEvent → Request
  user_event : UserEvent → Request
  restaurant_event : RestaurantEvent → Request

abbrev pub is_override : Request → Bool
is_override (reassign _ _ _) = true
is_override _ = false

unfoldable pub serve : Request → Session DeliveryDb Call → Session DeliveryDb Call
serve (accept driver_id order_id) s = (accept_assignment driver_id order_id s).1
serve (pick_up driver_id order_id) s = (pickup driver_id order_id s).1
serve (hand_over driver_id order_id) s = (deliver driver_id order_id s).1
serve (reject radar driver_id order_id) s = (reject_assignment radar driver_id order_id s).1
serve (reassign caller order_id driver_id) s =
    (reassign_delivery_for_order caller order_id driver_id s).1
serve (order_event radar e) s = (apply_order_event radar none e s).1
serve (user_event e) s = (apply_user_event e s).1
serve (restaurant_event e) s = (apply_restaurant_event e s).1

unfoldable pub serve_all : List (ℕ × Request) → DeliveryDb → DeliveryDb
serve_all [] db = db
serve_all ((now, r) ∷ rest) db = serve_all rest (serve r (begin db now)).durable
