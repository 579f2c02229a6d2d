-- ===== src/Admin/Tests.antt =====
-- The theorems of the admin service at small copies.
use food_delivery_system.Base.{ℕ, ◌≡◌, refl, true, false, none, some, [], ◌∷◌, String, begin, find}
use food_delivery_system.Admin.Models.{UserRow, OrderRow, AdminDb, user_key}
use food_delivery_system.Admin.Consumer.{
  OrderEvent, UserEvent, ContactEvent, apply_order_event, apply_user_event, apply_contact_event,
}
use food_delivery_system.Admin.Service.{get_stats}
use food_delivery_system.Admin.Redelivery.{user_events-commute, apply_order_event-twice}

abbrev known : UserRow
known = record {
  id = 1;
  email = none;
  phone = some 200;
  first_name = "Asha";
  last_name = "";
  role = "customer";
  is_active = true;
  created_at = 5;
}

abbrev order_row : ℕ → String → ℕ → OrderRow
order_row id status total = record {
  id = id;
  customer_id = 1;
  restaurant_id = 1;
  status = status;
  payment_status = "SUCCESS";
  total = total;
  created_at = 5;
}

abbrev sample : AdminDb
sample = record {
  users = known ∷ [];
  restaurants = [];
  orders =
      order_row 1 "DELIVERED" 450 ∷ order_row 2 "CANCELLED" 100 ∷ order_row 3 "DELIVERED" 50 ∷ [];
}

abbrev renamed : UserEvent
renamed = record {
  user_id = some 1;
  first_name = some "Asha";
  last_name = some "Rao";
  role = none;
  is_active = some false;
}

abbrev moved : ContactEvent
moved = record { user_id = some 1; email = some 100; phone = none }

user_1 : find user_key 1 sample.users ≡ some known
unfolding find
user_1 = refl

user_events-commute_example :
    let first = (apply_user_event renamed (begin sample 6)).1.durable in
    let other = (apply_contact_event moved (begin sample 6)).1.durable in
    (apply_contact_event moved (begin first 7)).1.durable.users
    ≡ (apply_user_event renamed (begin other 7)).1.durable.users
user_events-commute_example = user_events-commute renamed moved 1 6 7 sample refl refl known user_1

abbrev news : OrderEvent
news = record {
  order_id = some 4;
  customer_id = some 1;
  restaurant_id = none;
  status = some "PREPARING";
  payment_status = none;
  total = some 80;
}

apply_order_event-twice_example :
    let once = (apply_order_event news (begin sample 6)).1.durable in
    (apply_order_event news (begin once 9)).1.durable ≡ once
apply_order_event-twice_example = apply_order_event-twice news 6 9 sample

-- The cancelled order is counted and its total is not.
sample-stats :
    ((get_stats sample).orders_total ≡ 3) × ((get_stats sample).gross_merchandise_value ≡ 500)
unfolding get_stats
sample-stats = (refl, refl)
