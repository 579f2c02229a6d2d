-- ===== src/Restaurants/Service.antt =====
-- services/restaurants/app/service.py: the restaurant profiles. The mailbox of the operator is
-- `settings.admin_alert_email`.
use text.Mathlib.Text.{◌==◌ as str_eq}
use food_delivery_system.Base.{
  ℕ, suc, Bool, true, false, not, Option, none, some, List, [], ◌∷◌, ◌++◌, String, pure, raise_if,
  or_raise, gets, modify, commit, ◌>>=◌, ◌>>◌, find, select, map, or_else, ◌==◌, if◌then◌else◌,
  ◌&&◌,
}
use food_delivery_system.Shared.Identity.{Identity, is_admin}
use food_delivery_system.Shared.OutboxEvent.{Topic}
use food_delivery_system.Restaurants.Models.{
  ApprovalStatus, pending, approved, rejected, Restaurant, OpeningHour, Payload, restaurant_changed,
  restaurant_pending, restaurant_not_found, not_manager, already_managing, Act, restaurant_key,
  record_event, put_restaurant,
}

pub record RestaurantCreate : Type 0 where
  pub name : String
  pub city : String
  pub min_order_amount : ℕ
  pub latitude : Option ℕ
  pub longitude : Option ℕ
  pub delivery_radius : Option ℕ

pub record Registration : Type 0 where
  pub owner_id : Option ℕ
  pub name : Option String
  pub city : Option String

-- A day of the payload, its times already parsed.
pub record OpeningHourDay : Type 0 where
  pub day_of_week : ℕ
  pub opens_at : Option ℕ
  pub closes_at : Option ℕ
  pub is_closed : Bool

-- A field that the payload leaves out is none; one that may be cleared has an option inside.
pub record RestaurantUpdate : Type 0 where
  pub name : Option String
  pub city : Option String
  pub is_open : Option Bool
  pub min_order_amount : Option ℕ
  pub latitude : Option (Option ℕ)
  pub longitude : Option (Option ℕ)
  pub delivery_radius : Option (Option ℕ)
  pub opening_hours : Option (List OpeningHourDay)

unfoldable pub owned_by : ℕ → List Restaurant → List Restaurant
owned_by owner_id = select (λ r. r.owner_id == owner_id)

abbrev pub is_none_owned : List Restaurant → Bool
is_none_owned [] = true
is_none_owned (_ ∷ _) = false

-- What `publish_restaurant` tells of a row.
abbrev pub announcement : Restaurant → Payload
announcement r = restaurant_changed r.id r.owner_id r.name r.is_open r.approval_status

abbrev pub publish_restaurant : Restaurant → Act (Unit {0})
publish_restaurant r = record_event Topic.restaurant_events r.id (announcement r)

abbrev pub alert_admin_of_submission : Option String → Restaurant → Act (Unit {0})
alert_admin_of_submission none r = pure tt
alert_admin_of_submission (some to) r =
    record_event Topic.notification_events r.id (restaurant_pending to r.name r.city)

-- A row as the database stores it, pending and closed.
abbrev pub new_restaurant : ℕ → ℕ → RestaurantCreate → Restaurant
new_restaurant id owner_id data_in = record {
  id = id;
  owner_id = owner_id;
  name = data_in.name;
  city = data_in.city;
  is_open = false;
  approval_status = pending;
  rejection_reason = none;
  min_order_amount = data_in.min_order_amount;
  latitude = data_in.latitude;
  longitude = data_in.longitude;
  delivery_radius = data_in.delivery_radius;
}

-- `session.add` and `flush`, which gives the row its id.
abbrev pub add_restaurant : ℕ → RestaurantCreate → Act Restaurant
add_restaurant owner_id data_in = do
  id ← gets (λ db. db.next_restaurant_id)
  modify (λ db. record db { next_restaurant_id = suc id })
  put_restaurant (new_restaurant id owner_id data_in)
  pure (new_restaurant id owner_id data_in)

unfoldable pub create_restaurant : Identity → RestaurantCreate → Act Restaurant
create_restaurant owner data_in = do
  existing ← gets (λ db. owned_by owner.user_id db.restaurants)
  raise_if (not (is_none_owned existing)) already_managing
  r ← add_restaurant owner.user_id data_in
  publish_restaurant r
  commit
  pure r

abbrev pub registered_data : String → Option String → RestaurantCreate
registered_data name city = record {
  name = name;
  city = or_else city "";
  min_order_amount = 0;
  latitude = none;
  longitude = none;
  delivery_radius = none;
}

abbrev pub register_venue :
    Option String → ℕ → RestaurantCreate → List Restaurant → Act (Option Restaurant)
register_venue admin owner_id data_in (_ ∷ _) = pure none
register_venue admin owner_id data_in [] = do
  r ← add_restaurant owner_id data_in
  publish_restaurant r
  alert_admin_of_submission admin r
  commit
  pure (some r)

-- A payload with an owner and a name that is not empty.
abbrev pub registration_name : Registration → Option (ℕ × String)
registration_name p = elim p.owner_id [
  | none ↦ none
  | some owner_id ↦ elim p.name [
    | none ↦ none
    | some name ↦ if str_eq name "" then none else some (owner_id, name)
  ]
]

abbrev pub register_named :
    Option String → Option String → Option (ℕ × String) → Act (Option Restaurant)
register_named admin city none = pure none
register_named admin city (some (owner_id, name)) = do
  existing ← gets (λ db. owned_by owner_id db.restaurants)
  register_venue admin owner_id (registered_data name city) existing

unfoldable pub register_from_signup : Option String → Registration → Act (Option Restaurant)
register_from_signup admin p = register_named admin p.city (registration_name p)

abbrev pub get_restaurant : ℕ → Act Restaurant
get_restaurant id = do
  found ← gets (λ db. find restaurant_key id db.restaurants)
  or_raise found restaurant_not_found

abbrev pub is_approved : ApprovalStatus → Bool
is_approved approved = true
is_approved _ = false

abbrev pub is_rejected : ApprovalStatus → Bool
is_rejected rejected = true
is_rejected _ = false

abbrev pub decided : ApprovalStatus → Option String → Restaurant → Restaurant
decided status reason r = record r {
  approval_status = status;
  rejection_reason = if is_rejected status then reason else none;
  is_open = if is_approved status then r.is_open else false;
}

-- The end of each change of a profile.
abbrev pub store_and_publish : Restaurant → Act Restaurant
store_and_publish r = do put_restaurant r; publish_restaurant r; commit; pure r

unfoldable pub set_approval : ℕ → ApprovalStatus → Option String → Act Restaurant
set_approval id status reason = do
  r ← get_restaurant id
  store_and_publish (decided status reason r)

unfoldable pub owned_restaurant : Identity → ℕ → Act Restaurant
owned_restaurant user id = do
  r ← get_restaurant id
  raise_if (not (r.owner_id == user.user_id) && not (is_admin user.role)) not_manager
  pure r

abbrev pub updated : RestaurantUpdate → Restaurant → Restaurant
updated u r = record r {
  name = or_else u.name r.name;
  city = or_else u.city r.city;
  is_open = or_else u.is_open r.is_open;
  min_order_amount = or_else u.min_order_amount r.min_order_amount;
  latitude = or_else u.latitude r.latitude;
  longitude = or_else u.longitude r.longitude;
  delivery_radius = or_else u.delivery_radius r.delivery_radius;
}

abbrev pub hour_row : ℕ → OpeningHourDay → OpeningHour
hour_row id d = record {
  restaurant_id = id;
  day_of_week = d.day_of_week;
  opens_at = d.opens_at;
  closes_at = d.closes_at;
  is_closed = d.is_closed;
}

-- The schedule of a restaurant is deleted, then the days of the payload are inserted.
unfoldable pub replace_opening_hours : ℕ → List OpeningHourDay → List OpeningHour → List OpeningHour
replace_opening_hours id days rows =
    select (λ h. not (h.restaurant_id == id)) rows ++ map (hour_row id) days

abbrev pub replace_if_given : ℕ → Option (List OpeningHourDay) → Act (Unit {0})
replace_if_given id none = pure tt
replace_if_given id (some days) =
    modify (λ db. record db { opening_hours = replace_opening_hours id days db.opening_hours })

unfoldable pub update_restaurant : ℕ → Identity → RestaurantUpdate → Act Restaurant
update_restaurant id user u = do
  r ← owned_restaurant user id
  replace_if_given r.id u.opening_hours
  store_and_publish (updated u r)
