-- ===== src/Restaurants/Reviews.antt =====
-- services/restaurants/app/reviews.py. The wording of a notification is left out.
use text.Mathlib.Text.{◌==◌ as str_eq}
use food_delivery_system.Base.{
  ℕ, suc, Bool, true, false, not, Option, none, some, String, pure, raise_if, or_raise, gets,
  modify, commit, get_now, ◌>>=◌, ◌>>◌, find, save, select, or_else, ◌==◌, if◌then◌else◌, ◌&&◌,
  ◌||◌,
}
use food_delivery_system.Shared.Identity.{Identity, is_admin}
use food_delivery_system.Shared.OutboxEvent.{Topic}
use food_delivery_system.Restaurants.Models.{
  Restaurant, Review, OrderSnapshot, review_created, review_replied, order_not_found,
  review_not_found, not_the_customer, not_the_author, not_author_or_admin, not_delivered,
  already_reviewed, Act, restaurant_key, review_key, reviewed_order, snapshot_key, record_event,
}
use food_delivery_system.Restaurants.Service.{owned_restaurant}

-- `status in REVIEWABLE_STATUSES`
unfoldable pub is_reviewable : String → Bool
is_reviewable status = str_eq status "DELIVERED" || str_eq status "COMPLETED"

abbrev pub get_review : ℕ → Act Review
get_review id = do
  found ← gets (λ db. find review_key id db.reviews)
  or_raise found review_not_found

abbrev pub put_review : Review → Act (Unit {0})
put_review r = modify (λ db. record db { reviews = save review_key r db.reviews })

abbrev pub is_set {ℓ} : {A : Type ℓ} → Option A → Bool
is_set none = false
is_set (some _) = true

abbrev pub new_review : ℕ → ℕ → OrderSnapshot → ℕ → ℕ → Option String → Review
new_review id order_id o customer_id rating comment = record {
  id = id;
  order_id = order_id;
  customer_id = customer_id;
  restaurant_id = o.restaurant_id;
  rating = rating;
  reviewer_name = o.customer_name;
  comment = comment;
  owner_reply = none;
  owner_replied_at = none;
  updated_at = none;
}

abbrev pub add_review : Review → Act (Unit {0})
add_review r = do modify (λ db. record db { next_review_id = suc db.next_review_id }); put_review r

-- `_notify` of the owner, where the restaurant is known.
abbrev pub notify_owner : Option Restaurant → ℕ → Act (Unit {0})
notify_owner none order_id = pure tt
notify_owner (some r) order_id =
    record_event Topic.notification_events order_id (review_created r.owner_id order_id)

unfoldable pub create_review : Identity → ℕ → ℕ → Option String → Act Review
create_review caller order_id rating comment = do
  found ← gets (λ db. find snapshot_key order_id db.snapshots)
  o ← or_raise found order_not_found
  raise_if (not (o.customer_id == caller.user_id)) not_the_customer
  raise_if (not (is_reviewable o.status)) not_delivered
  earlier ← gets (λ db. find reviewed_order order_id db.reviews)
  raise_if (is_set earlier) already_reviewed
  id ← gets (λ db. db.next_review_id)
  add_review (new_review id order_id o caller.user_id rating comment)
  restaurant ← gets (λ db. find restaurant_key o.restaurant_id db.restaurants)
  notify_owner restaurant order_id
  commit
  pure (new_review id order_id o caller.user_id rating comment)

abbrev pub edited : Option ℕ → Option String → Bool → ℕ → Review → Review
edited rating comment comment_set at r = record r {
  rating = or_else rating r.rating;
  comment = if comment_set then comment else r.comment;
  updated_at = some at;
}

unfoldable pub update_review : Identity → ℕ → Option ℕ → Option String → Bool → Act Review
update_review caller id rating comment comment_set = do
  r ← get_review id
  raise_if (not (r.customer_id == caller.user_id)) not_the_author
  at ← get_now
  put_review (edited rating comment comment_set at r)
  commit
  pure (edited rating comment comment_set at r)

unfoldable pub delete_review : Identity → ℕ → Act (Unit {0})
delete_review caller id = do
  r ← get_review id
  raise_if (not (r.customer_id == caller.user_id) && not (is_admin caller.role)) not_author_or_admin
  modify (λ db. record db { reviews = select (λ x. not (x.id == r.id)) db.reviews })
  commit

abbrev pub replied : String → ℕ → Review → Review
replied reply at r = record r { owner_reply = some reply; owner_replied_at = some at }

unfoldable pub reply_to_review : Identity → ℕ → String → Act Review
reply_to_review caller id reply = do
  r ← get_review id
  owned_restaurant caller r.restaurant_id
  at ← get_now
  put_review (replied reply at r)
  record_event Topic.notification_events r.order_id (review_replied r.customer_id r.order_id)
  commit
  pure (replied reply at r)
