-- ===== src/Admin/Consumer.antt =====
-- services/admin/app/consumer.py. A payload is a record of the fields that a handler reads, `none` where the event does
-- not carry one.
use text.Mathlib.Text.{◌==◌ as str_eq}
use food_delivery_system.Base.{
  ℕ, Bool, true, Option, none, some, String, or_else, get_now, modify, commit, pure, ◌>>=◌, ◌>>◌,
  find, save, if◌then◌else◌,
}
use food_delivery_system.Admin.Models.{
  UserRow, RestaurantRow, OrderRow, AdminDb, user_key, restaurant_key, order_key, Act,
}

pub record OrderEvent : Type 0 where
  pub order_id : Option ℕ
  pub customer_id : Option ℕ
  pub restaurant_id : Option ℕ
  pub status : Option String
  pub payment_status : Option String
  pub total : Option ℕ

abbrev pub new_order : OrderEvent → ℕ → ℕ → OrderRow
new_order e id now = record {
  id = id;
  customer_id = or_else e.customer_id 0;
  restaurant_id = or_else e.restaurant_id 0;
  status = "";
  payment_status = "";
  total = 0;
  created_at = now;
}

-- `payload.get("status") or row.status`
abbrev pub kept_status : Option String → String → String
kept_status none old = old
kept_status (some s) old = if str_eq s "" then old else s

abbrev pub with_order : OrderEvent → OrderRow → OrderRow
with_order e row = record row {
  status = kept_status e.status row.status;
  customer_id = or_else e.customer_id row.customer_id;
  restaurant_id = or_else e.restaurant_id row.restaurant_id;
  payment_status = or_else e.payment_status row.payment_status;
  total = or_else e.total row.total;
}

abbrev pub put_order : OrderEvent → ℕ → ℕ → AdminDb → AdminDb
put_order e id now db = record db {
  orders =
      save order_key (with_order e (or_else (find order_key id db.orders) (new_order e id now)))
        db.orders;
}

abbrev pub order_of : OrderEvent → Option ℕ → Act
order_of e none = pure tt
order_of e (some id) = do now ← get_now; modify (put_order e id now); commit

unfoldable pub apply_order_event : OrderEvent → Act
apply_order_event e = order_of e e.order_id

pub record UserEvent : Type 0 where
  pub user_id : Option ℕ
  pub first_name : Option String
  pub last_name : Option String
  pub role : Option String
  pub is_active : Option Bool

abbrev pub new_user : ℕ → ℕ → UserRow
new_user id now = record {
  id = id;
  email = none;
  phone = none;
  first_name = "";
  last_name = "";
  role = "customer";
  is_active = true;
  created_at = now;
}

abbrev pub with_user : UserEvent → UserRow → UserRow
with_user e row = record row {
  first_name = or_else e.first_name row.first_name;
  last_name = or_else e.last_name row.last_name;
  role = or_else e.role row.role;
  is_active = or_else e.is_active row.is_active;
}

abbrev pub put_user : (UserRow → UserRow) → ℕ → ℕ → AdminDb → AdminDb
put_user change id now db = record db {
  users = save user_key (change (or_else (find user_key id db.users) (new_user id now))) db.users;
}

abbrev pub user_of : (UserRow → UserRow) → Option ℕ → Act
user_of change none = pure tt
user_of change (some id) = do now ← get_now; modify (put_user change id now); commit

unfoldable pub apply_user_event : UserEvent → Act
apply_user_event e = user_of (with_user e) e.user_id

pub record ContactEvent : Type 0 where
  pub user_id : Option ℕ
  pub email : Option ℕ
  pub phone : Option ℕ

abbrev pub first_some {ℓ} : {A : Type ℓ} → Option A → Option A → Option A
first_some none o = o
first_some (some a) o = some a

abbrev pub with_contact : ContactEvent → UserRow → UserRow
with_contact e row = record row {
  email = first_some e.email row.email;
  phone = first_some e.phone row.phone;
}

unfoldable pub apply_contact_event : ContactEvent → Act
apply_contact_event e = user_of (with_contact e) e.user_id

pub record RestaurantEvent : Type 0 where
  pub restaurant_id : Option ℕ
  pub name : Option String
  pub owner_id : Option ℕ

abbrev pub new_restaurant : ℕ → ℕ → RestaurantRow
new_restaurant id now = record { id = id; name = ""; owner_id = 0; created_at = now }

abbrev pub with_restaurant : RestaurantEvent → RestaurantRow → RestaurantRow
with_restaurant e row = record row {
  name = or_else e.name row.name;
  owner_id = or_else e.owner_id row.owner_id;
}

abbrev pub restaurant_of : RestaurantEvent → Option ℕ → Act
restaurant_of e none = pure tt
restaurant_of e (some id) = do
  now ← get_now
  modify (λ db. record db {
    restaurants =
        save restaurant_key
          (with_restaurant e
            (or_else (find restaurant_key id db.restaurants) (new_restaurant id now)))
          db.restaurants;
  })
  commit

unfoldable pub apply_restaurant_event : RestaurantEvent → Act
apply_restaurant_event e = restaurant_of e e.restaurant_id
