-- ===== src/Restaurants/Venues/Others.antt =====
-- The handlers of menus, orders and reviews leave the restaurants and what is told of them alone.
use food_delivery_system.Base.{
  after_read, ℕ, ◌≡◌, refl, Bool, Option, List, String, begin, Session, arith,
}
use food_delivery_system.Shared.Identity.{Identity}
use food_delivery_system.Restaurants.Models.{RestaurantsDb, Call}
use food_delivery_system.Restaurants.Zones.{Geometry}
use food_delivery_system.Restaurants.Service.{owned_restaurant}
use food_delivery_system.Restaurants.Validation.{
  OrderLine, ValidateOrderRequest, LocalTime, validate_order, release_stock,
}
use food_delivery_system.Restaurants.Menu.{
  MenuItemCreate, MenuItemUpdate, changed, store_item, store_in_category, change_item,
  item_in_restaurant, category_if_given, add_category, update_category, delete_category, add_item,
  update_item, delete_item,
}
use food_delivery_system.Restaurants.Reviews.{
  create_review, update_review, delete_review, reply_to_review,
}
use food_delivery_system.Restaurants.Consumer.{OrderEvent, apply_order_event}
use food_delivery_system.Restaurants.Venues.{latest, Change, untouched}

owned_restaurant-reads :
    (user : Identity) (id : ℕ) (s : Session RestaurantsDb Call) → (owned_restaurant user id s).1 ≡ s
unfolding owned_restaurant
owned_restaurant-reads user id s = ground arith

item_in_restaurant-reads :
    (id i : ℕ) (s : Session RestaurantsDb Call) → (item_in_restaurant id i s).1 ≡ s
item_in_restaurant-reads id i s = ground arith

category_if_given-reads :
    (id : ℕ) (c : Option ℕ) (s : Session RestaurantsDb Call) → (category_if_given id c s).1 ≡ s
category_if_given-reads id c s = ground arith

abbrev Quiet : Bool → RestaurantsDb → Session RestaurantsDb Call → Type 0
Quiet b db s = Change b db s.durable

module _ (b : Bool) (db : RestaurantsDb) (now : ℕ) where
  pub add_category-Change :
      (user : Identity) (id : ℕ) (name : String) (sort_order : ℕ)
      → Change b db (add_category user id name sort_order (begin db now)).1.durable
  unfolding add_category owned_restaurant
  add_category-Change user id name sort_order =
      untouched (ground arith) (ground arith) (λ k. ground arith)

  pub update_category-Change :
      (user : Identity) (id c : ℕ) (name : Option String) (sort_order : Option ℕ)
      → Change b db (update_category user id c name sort_order (begin db now)).1.durable
  unfolding update_category owned_restaurant
  update_category-Change user id c name sort_order =
      untouched (ground arith) (ground arith) (λ k. ground arith)

  pub delete_category-Change :
      (user : Identity) (id c : ℕ)
      → Change b db (delete_category user id c (begin db now)).1.durable
  unfolding delete_category owned_restaurant
  delete_category-Change user id c = untouched (ground arith) (ground arith) (λ k. ground arith)

  pub add_item-Change :
      (user : Identity) (id : ℕ) (data_in : MenuItemCreate)
      → Change b db (add_item user id data_in (begin db now)).1.durable
  unfolding add_item owned_restaurant
  add_item-Change user id data_in = untouched (ground arith) (ground arith) (λ k. ground arith)

  pub update_item-Change :
      (user : Identity) (id i : ℕ) (u : MenuItemUpdate)
      → Change b db (update_item user id i u (begin db now)).1.durable
  unfolding update_item owned_restaurant
  update_item-Change user id i u =
      let s = begin db now in
      let still : Quiet b db s = untouched refl refl (λ k. refl) in
      after_read (Quiet b db) (owned_restaurant user id) (λ _. change_item id i u) s
        (owned_restaurant-reads user id s) still
        (λ r _.
          after_read (Quiet b db) (item_in_restaurant id i) (store_in_category id u) s
            (item_in_restaurant-reads id i s) still
            (λ item _.
              after_read (Quiet b db) (category_if_given id u.category_id)
                (λ _. store_item (changed u item)) s (category_if_given-reads id u.category_id s)
                still (λ _ _. untouched refl refl (λ k. refl))))

  pub delete_item-Change :
      (user : Identity) (id i : ℕ) → Change b db (delete_item user id i (begin db now)).1.durable
  unfolding delete_item owned_restaurant
  delete_item-Change user id i = untouched (ground arith) (ground arith) (λ k. ground arith)

  pub validate_order-Change :
      (g : Geometry) (clock : ℕ → LocalTime) (id : ℕ) (body : ValidateOrderRequest)
      → Change b db (validate_order g clock id body (begin db now)).1.durable
  unfolding validate_order
  validate_order-Change g clock id body =
      untouched (ground arith) (ground arith) (λ k. ground arith)

  pub release_stock-Change :
      (id : ℕ) (items : List OrderLine)
      → Change b db (release_stock id items (begin db now)).1.durable
  unfolding release_stock
  release_stock-Change id items = untouched refl refl (λ k. refl)

  pub create_review-Change :
      (caller : Identity) (id rating : ℕ) (comment : Option String)
      → Change b db (create_review caller id rating comment (begin db now)).1.durable
  unfolding create_review latest
  create_review-Change caller id rating comment =
      untouched (ground arith) (ground arith) (λ k. ground arith)

  pub update_review-Change :
      (caller : Identity) (id : ℕ) (rating : Option ℕ) (comment : Option String)
      (comment_set : Bool)
      → Change b db (update_review caller id rating comment comment_set (begin db now)).1.durable
  unfolding update_review
  update_review-Change caller id rating comment comment_set =
      untouched (ground arith) (ground arith) (λ k. ground arith)

  pub delete_review-Change :
      (caller : Identity) (id : ℕ) → Change b db (delete_review caller id (begin db now)).1.durable
  unfolding delete_review
  delete_review-Change caller id = untouched (ground arith) (ground arith) (λ k. ground arith)

  pub reply_to_review-Change :
      (caller : Identity) (id : ℕ) (text : String)
      → Change b db (reply_to_review caller id text (begin db now)).1.durable
  unfolding reply_to_review owned_restaurant latest
  reply_to_review-Change caller id text =
      untouched (ground arith) (ground arith) (λ k. ground arith)

  pub apply_order_event-Change :
      (e : OrderEvent) → Change b db (apply_order_event e (begin db now)).1.durable
  unfolding apply_order_event
  apply_order_event-Change e = untouched (ground arith) (ground arith) (λ k. ground arith)
