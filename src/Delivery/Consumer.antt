-- ===== src/Delivery/Consumer.antt =====
-- services/delivery/app/consumer.py: the copies of orders, drivers and restaurants, and the assignment of
-- an order that is ready. A field that an event does not carry is none; a text that is empty counts as
-- absent where the source says `or`, and so does the id 0.
use text.Mathlib.Text.{◌==◌ as str_eq}
use food_delivery_system.Base.{
  ℕ, Bool, true, false, Option, none, some, String, pure, gets, modify, commit, when, ◌>>=◌, ◌>>◌,
  find, save, or_else, ◌==◌, if◌then◌else◌,
}
use food_delivery_system.Delivery.Models.{
  Delivery, OrderSnapshot, Driver, Act, snapshot_key, driver_key, restaurant_key, get_snapshot,
}
use food_delivery_system.Delivery.Drivers.{Radar}
use food_delivery_system.Delivery.Assignment.{assign_for_order}

pub record OrderEvent : Type 0 where
  pub order_id : Option ℕ
  pub customer_id : Option ℕ
  pub customer_name : Option String
  pub restaurant_id : Option ℕ
  pub restaurant_name : Option String
  pub status : Option String
  pub items : Option String
  pub order_total : Option String
  pub delivery_address : Option String
  pub restaurant_latitude : Option ℕ
  pub restaurant_longitude : Option ℕ
  pub destination_latitude : Option ℕ
  pub destination_longitude : Option ℕ

-- `if payload.get(field) is not None: snapshot.field = payload[field]`, for a column that may be null
abbrev pub or_keep {ℓ} : {A : Type ℓ} → Option A → Option A → Option A
or_keep none old = old
or_keep (some new) old = some new

-- `payload.get("status") or old`
abbrev pub or_text : Option String → String → String
or_text none old = old
or_text (some t) old = if str_eq t "" then old else t

abbrev pub first_snapshot : ℕ → OrderEvent → OrderSnapshot
first_snapshot id e = record {
  order_id = id;
  customer_id = or_else e.customer_id 0;
  customer_name = none;
  restaurant_id = none;
  restaurant_name = none;
  status = "";
  items = none;
  order_total = none;
  delivery_address = none;
  restaurant_latitude = none;
  restaurant_longitude = none;
  destination_latitude = none;
  destination_longitude = none;
}

abbrev pub overwrite : OrderEvent → OrderSnapshot → OrderSnapshot
overwrite e o = record {
  order_id = o.order_id;
  customer_id = or_else e.customer_id o.customer_id;
  customer_name = or_keep e.customer_name o.customer_name;
  restaurant_id = or_keep e.restaurant_id o.restaurant_id;
  restaurant_name = or_keep e.restaurant_name o.restaurant_name;
  status = or_text e.status o.status;
  items = or_keep e.items o.items;
  order_total = or_keep e.order_total o.order_total;
  delivery_address = or_keep e.delivery_address o.delivery_address;
  restaurant_latitude = or_keep e.restaurant_latitude o.restaurant_latitude;
  restaurant_longitude = or_keep e.restaurant_longitude o.restaurant_longitude;
  destination_latitude = or_keep e.destination_latitude o.destination_latitude;
  destination_longitude = or_keep e.destination_longitude o.destination_longitude;
}

abbrev pub is_ready : OrderSnapshot → Bool
is_ready o = str_eq o.status "READY_FOR_PICKUP"

abbrev pub ignore : Act Delivery → Act (Unit {0})
ignore m = m >>= λ _. pure tt

abbrev pub copy_order : Radar → Option Delivery → OrderEvent → ℕ → Act (Unit {0})
copy_order radar rival e id = do
  stored ← get_snapshot id
  let o = overwrite e (or_else stored (first_snapshot id e))
  modify (λ db. record db { snapshots = save snapshot_key o db.snapshots })
  commit
  when (is_ready o) (ignore (assign_for_order radar rival id))

abbrev pub for_id : Option ℕ → (ℕ → Act (Unit {0})) → Act (Unit {0})
for_id none go = pure tt
for_id (some id) go = go id

unfoldable pub apply_order_event : Radar → Option Delivery → OrderEvent → Act (Unit {0})
apply_order_event radar rival e = for_id e.order_id (copy_order radar rival e)

pub record UserEvent : Type 0 where
  pub user_id : Option ℕ
  pub id : Option ℕ
  pub role : Option String
  pub first_name : Option String
  pub last_name : Option String
  pub is_active : Option Bool

-- `payload.get("user_id") or payload.get("id")`
abbrev pub user_of : Option ℕ → Option ℕ → Option ℕ
user_of none id = id
user_of (some u) id = if u == 0 then id else some u

abbrev pub is_driver_role : Option String → Bool
is_driver_role none = false
is_driver_role (some r) = str_eq r "driver"

abbrev pub new_driver : ℕ → Driver
new_driver id = record { id = id; first_name = ""; last_name = ""; is_active = true }

abbrev pub driver_row : UserEvent → Driver → Driver
driver_row e d = record {
  id = d.id;
  first_name = or_else e.first_name d.first_name;
  last_name = or_else e.last_name d.last_name;
  is_active = or_else e.is_active d.is_active;
}

abbrev pub copy_driver : UserEvent → ℕ → Act (Unit {0})
copy_driver e id = do
  stored ← gets (λ db. find driver_key id db.drivers)
  modify (λ db. record db {
    drivers = save driver_key (driver_row e (or_else stored (new_driver id))) db.drivers;
  })
  commit

unfoldable pub apply_user_event : UserEvent → Act (Unit {0})
apply_user_event e =
    for_id (user_of e.user_id e.id) (λ id. when (is_driver_role e.role) (copy_driver e id))

pub record RestaurantEvent : Type 0 where
  pub restaurant_id : Option ℕ
  pub owner_id : Option ℕ

abbrev pub copy_restaurant : ℕ → ℕ → Act (Unit {0})
copy_restaurant owner_id id = do
  modify (λ db. record db {
    restaurants =
        save restaurant_key (record { restaurant_id = id; owner_id = owner_id }) db.restaurants;
  })
  commit

unfoldable pub apply_restaurant_event : RestaurantEvent → Act (Unit {0})
apply_restaurant_event e =
    for_id e.restaurant_id (λ id. for_id e.owner_id (λ owner_id. copy_restaurant owner_id id))
