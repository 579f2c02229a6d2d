-- ===== src/Restaurants/Requests.antt =====
-- Everything that changes the restaurants database, as requests that are served one after the other, each
-- in a session of its own.
use food_delivery_system.Base.{ℕ, Bool, true, false, Option, List, [], ◌∷◌, String, Session, begin}
use food_delivery_system.Shared.Identity.{Identity}
use food_delivery_system.Restaurants.Models.{ApprovalStatus, RestaurantsDb, Call}
use food_delivery_system.Restaurants.Zones.{Geometry}
use food_delivery_system.Restaurants.Validation.{
  OrderLine, ValidateOrderRequest, LocalTime, validate_order, release_stock,
}
use food_delivery_system.Restaurants.Service.{
  RestaurantCreate, Registration, RestaurantUpdate, create_restaurant, register_from_signup,
  set_approval, update_restaurant,
}
use food_delivery_system.Restaurants.Menu.{
  MenuItemCreate, MenuItemUpdate, add_category, update_category, delete_category, add_item,
  update_item, delete_item,
}
use food_delivery_system.Restaurants.Reviews.{
  create_review, update_review, delete_review, reply_to_review,
}
use food_delivery_system.Restaurants.Consumer.{OrderEvent, apply_order_event}

-- What the handlers take from outside: distances, the local clock, and the operator's mailbox.
pub record World : Type 0 where
  pub geometry : Geometry
  pub clock : ℕ → LocalTime
  pub admin : Option String

pub data Request : Type 0 where
  create : Identity → RestaurantCreate → Request
  register : Registration → Request
  decide : ℕ → ApprovalStatus → Option String → Request
  update : ℕ → Identity → RestaurantUpdate → Request
  menu_add_category : Identity → ℕ → String → ℕ → Request
  menu_update_category : Identity → ℕ → ℕ → Option String → Option ℕ → Request
  menu_delete_category : Identity → ℕ → ℕ → Request
  menu_add_item : Identity → ℕ → MenuItemCreate → Request
  menu_update_item : Identity → ℕ → ℕ → MenuItemUpdate → Request
  menu_delete_item : Identity → ℕ → ℕ → Request
  validate : ℕ → ValidateOrderRequest → Request
  release : ℕ → List OrderLine → Request
  review : Identity → ℕ → ℕ → Option String → Request
  revise : Identity → ℕ → Option ℕ → Option String → Bool → Request
  withdraw : Identity → ℕ → Request
  reply : Identity → ℕ → String → Request
  order_event : OrderEvent → Request

abbrev pub is_decision : Request → Bool
is_decision (decide _ _ _) = true
is_decision _ = false

unfoldable pub serve : World → Request → Session RestaurantsDb Call → Session RestaurantsDb Call
serve w (create owner data_in) s = (create_restaurant owner data_in s).1
serve w (register p) s = (register_from_signup w.admin p s).1
serve w (decide id status reason) s = (set_approval id status reason s).1
serve w (update id user u) s = (update_restaurant id user u s).1
serve w (menu_add_category user id name sort_order) s = (add_category user id name sort_order s).1
serve w (menu_update_category user id c name sort_order) s =
    (update_category user id c name sort_order s).1
serve w (menu_delete_category user id c) s = (delete_category user id c s).1
serve w (menu_add_item user id data_in) s = (add_item user id data_in s).1
serve w (menu_update_item user id i u) s = (update_item user id i u s).1
serve w (menu_delete_item user id i) s = (delete_item user id i s).1
serve w (validate id body) s = (validate_order w.geometry w.clock id body s).1
serve w (release id items) s = (release_stock id items s).1
serve w (review caller id rating comment) s = (create_review caller id rating comment s).1
serve w (revise caller id rating comment comment_set) s =
    (update_review caller id rating comment comment_set s).1
serve w (withdraw caller id) s = (delete_review caller id s).1
serve w (reply caller id text) s = (reply_to_review caller id text s).1
serve w (order_event e) s = (apply_order_event e s).1

unfoldable pub serve_all : World → List (ℕ × Request) → RestaurantsDb → RestaurantsDb
serve_all w [] db = db
serve_all w ((now, r) ∷ rest) db = serve_all w rest (serve w r (begin db now)).durable
