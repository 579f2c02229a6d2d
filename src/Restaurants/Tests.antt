-- ===== src/Restaurants/Tests.antt =====
-- The theorems of the restaurants service at a sample database: one approved restaurant that is always
-- open, with five portions of one item, and two reviews.
use text.Mathlib.Text.{◌==◌ as str_eq}
use food_delivery_system.Base.{
  ◌↔◌, length, ◌≤◌, ◌*◌, ℕ, ◌≡◌, refl, true, false, none, some, List, [], ◌∷◌, ok, begin, find,
  save, arith,
}
use food_delivery_system.Shared.Identity.{Role}
use food_delivery_system.Shared.OutboxEvent.{Topic, outbox_event}
use food_delivery_system.Restaurants.Models.{
  approved, Restaurant, restaurant_changed, OpeningHour, MenuItem, Review, RestaurantsDb,
}
use food_delivery_system.Restaurants.Hours.{schedule_status, within_schedule_clause}
use food_delivery_system.Restaurants.Hours.Clause.{schedule_status-clause}
use food_delivery_system.Restaurants.Inventory.{shortfall}
use food_delivery_system.Restaurants.Zones.{Geometry, check}
use food_delivery_system.Restaurants.Validation.{
  ValidateOrderRequest, ValidatedLine, LocalTime, accepted, check_lines, verdict, validate_order,
  release_stock,
}
use food_delivery_system.Restaurants.Validation.Reservation.{release_stock-validate_order}
use food_delivery_system.Restaurants.Service.{RestaurantCreate, owned_by, create_restaurant}
use food_delivery_system.Restaurants.Discovery.{AveragePrice, price_band_clause, band_for_price}
use food_delivery_system.Restaurants.Discovery.Bands.{price_band_clause-band_for_price}
use food_delivery_system.Restaurants.Ratings.{summary_for_one, reviews_of}
use food_delivery_system.Restaurants.Ratings.Bounds.{summary_for_one-bounds}
use food_delivery_system.Restaurants.Requests.{
  World, Request, create, decide, validate, serve, serve_all,
}
use food_delivery_system.Restaurants.Venues.{latest}
use food_delivery_system.Restaurants.Venues.Histories.{
  IsListed, IsApprovedIn, serve_all-IsListed, serve_all-unapproved,
}

abbrev geometry : Geometry
geometry = record { distance = λ a b. 0; is_same_text = λ a b. str_eq a b }

abbrev monday_noon : LocalTime
monday_noon = record { day_of_week = 0; minute = 720 }

abbrev restaurant : Restaurant
restaurant = record {
  id = 1;
  owner_id = 7;
  name = "Dosa Corner";
  city = "Surat";
  is_open = true;
  approval_status = approved;
  rejection_reason = none;
  min_order_amount = 900;
  latitude = none;
  longitude = none;
  delivery_radius = none;
}

abbrev dosa : MenuItem
dosa = record {
  id = 10;
  restaurant_id = 1;
  category_id = 3;
  name = "Dosa";
  price = 500;
  is_available = true;
  stock_quantity = some 5;
}

abbrev stars : ℕ → ℕ → Review
stars id rating = record {
  id = id;
  order_id = id;
  customer_id = 4;
  restaurant_id = 1;
  rating = rating;
  reviewer_name = "Alex R.";
  comment = none;
  owner_reply = none;
  owner_replied_at = none;
  updated_at = none;
}

-- Mondays from ten in the evening over midnight.
abbrev late : OpeningHour
late = record {
  restaurant_id = 2;
  day_of_week = 0;
  opens_at = some 1320;
  closes_at = some 120;
  is_closed = false;
}

abbrev sample : RestaurantsDb
sample = record {
  restaurants = restaurant ∷ [];
  next_restaurant_id = 2;
  opening_hours = late ∷ [];
  menu_categories = [];
  next_category_id = 4;
  menu_items = dosa ∷ [];
  next_item_id = 11;
  reviews = stars 1 5 ∷ stars 2 4 ∷ [];
  next_review_id = 3;
  snapshots = [];
  outbox =
      outbox_event Topic.restaurant_events (some 1)
        (restaurant_changed 1 7 "Dosa Corner" true approved)
      ∷ [];
}

abbrev two_dosas : ValidateOrderRequest
two_dosas = record {
  items = record { menu_item_id = 10; quantity = 2; unit_price = 500 } ∷ [];
  address = record { city = "Surat"; latitude = none; longitude = none };
  reserve = true;
}

abbrev lines : List ValidatedLine
lines =
    record { menu_item_id = 10; name = "Dosa"; unit_price = 500; quantity = 2; line_total = 1000 }
    ∷ []

two_dosas-accepted :
    verdict geometry monday_noon sample restaurant two_dosas ≡ accepted 1 lines 1000
unfolding verdict schedule_status check check_lines shortfall find save
two_dosas-accepted = refl

validate_order-accepted :
    (validate_order geometry (λ now. monday_noon) 1 two_dosas (begin sample 0)).0
    ≡ ok (accepted 1 lines 1000)
unfolding validate_order verdict schedule_status check check_lines shortfall find save
validate_order-accepted = refl

release_stock-validate_order_example :
    (release_stock 1 two_dosas.items (
      begin
        (validate_order geometry (λ now. monday_noon) 1 two_dosas (begin sample 0)).1.durable
        60)).1.durable.menu_items
    ≡ sample.menu_items
unfolding find
release_stock-validate_order_example =
    release_stock-validate_order geometry (λ now. monday_noon) 1 two_dosas sample 0 60 1 lines 1000
      refl (refl, tt) (refl, tt) validate_order-accepted

schedule_status-clause_example :
    (schedule_status true (late ∷ []) 1 60).accepting_orders
    ≡ within_schedule_clause (late ∷ []) 1 60
unfolding find
schedule_status-clause_example = schedule_status-clause (late ∷ []) 1 60 (refl, tt)

abbrev world : World
world = record { geometry = geometry; clock = λ now. monday_noon; admin = none }

abbrev newcomer : RestaurantCreate
newcomer = record {
  name = "Thali House";
  city = "Surat";
  min_order_amount = 0;
  latitude = none;
  longitude = none;
  delivery_radius = none;
}

abbrev day : List (ℕ × Request)
day =
    (10, create (record { user_id = 8; role = Role.restaurant }) newcomer)
    ∷ (20, validate 1 two_dosas)
    ∷ []

sample-IsListed : IsListed sample
unfolding find latest
sample-IsListed = record {
  keyed = (refl, tt);
  fresh = (ground arith, tt);
  single = (refl, tt);
  told = λ k r e. ground arith;
}

serve_all-IsListed_example : IsListed (serve_all world ((30, decide 2 approved none) ∷ day) sample)
serve_all-IsListed_example =
    serve_all-IsListed world ((30, decide 2 approved none) ∷ day) sample sample-IsListed

still-approved : IsApprovedIn (serve_all world day sample) 1
unfolding serve_all serve create_restaurant owned_by validate_order verdict schedule_status check
    check_lines shortfall find save
still-approved = (restaurant, refl, refl)

serve_all-unapproved_example : IsApprovedIn sample 1
serve_all-unapproved_example =
    serve_all-unapproved world day sample 1 (refl, (refl, tt)) still-approved

-- Two items at 900 and 1,500 paise.
abbrev twelve_on_average : AveragePrice
twelve_on_average = record { total = 2400; count = 2 }

price_band_clause-band_for_price_example :
    (price_band_clause twelve_on_average 2 ≡ true)
    ↔ (band_for_price (some twelve_on_average) ≡ some 2)
price_band_clause-band_for_price_example =
    price_band_clause-band_for_price twelve_on_average 2 (ground arith) (ground arith)

summary_for_one-bounds_example :
    ((summary_for_one sample.reviews 1).count ≡ length (reviews_of 1 sample.reviews))
    × ((total count : ℕ)
        → (summary_for_one sample.reviews 1).average ≡ some (total, count)
        → (1 ≤ count) × (count ≤ total) × (total ≤ 5 * count))
summary_for_one-bounds_example =
    summary_for_one-bounds sample.reviews 1
      ((ground arith, ground arith), ((ground arith, ground arith), tt))
