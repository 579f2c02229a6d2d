-- ===== src/Users/Profile.antt =====
-- services/users/app/profile.py. The geocoder is an argument: a line, a city and a postal code to a point. What
-- happens at the commit to a phone that was taken meanwhile is `lost_race`.
use food_delivery_system.Base.{
  ℕ, suc, Bool, true, false, not, Option, none, some, List, String, pure, raise_if, or_raise, when,
  ◌>>=◌, ◌>>◌, find, save, select, map, or_else, ◌==◌, if◌then◌else◌, ◌&&◌, ◌||◌,
}
use food_delivery_system.Shared.OutboxEvent.{Topic}
use food_delivery_system.Users.Models.{
  User, Address, address_changed, phone_registered, address_not_found, address_key, phone_key,
}
use food_delivery_system.Users.Accounts.{commit_unless}
use food_delivery_system.Users.Store.{Act, get_db, set_db, commit_db, put_user, record_event}

pub record UserUpdate : Type 0 where
  pub first_name : Option String
  pub last_name : Option String
  pub phone : Option ℕ

abbrev pub updated : UserUpdate → User → User
updated d u = record u {
  first_name = or_else d.first_name u.first_name;
  last_name = or_else d.last_name u.last_name;
  phone = or_else d.phone u.phone;
}

abbrev pub is_found : Option User → Bool
is_found none = false
is_found (some u) = true

-- Whether the new phone is another account's; an account's own phone is not looked up.
abbrev pub is_clash : User → Option ℕ → List User → Bool
is_clash u none rows = false
is_clash u (some phone) rows = not (phone == u.phone) && is_found (find phone_key phone rows)

unfoldable pub update_profile : Bool → User → UserUpdate → Act User
update_profile lost_race u d = do
  clash ← get_db (λ db. is_clash u d.phone db.users)
  raise_if clash phone_registered
  put_user (updated d u)
  commit_unless lost_race phone_registered
  pure (updated d u)

pub record Point : Type 0 where
  pub latitude : ℕ
  pub longitude : ℕ

abbrev pub Geocoder : Type 0
Geocoder = ℕ → ℕ → ℕ → Option Point

abbrev pub latitude_of : Option Point → Option ℕ
latitude_of none = none
latitude_of (some p) = some p.latitude

abbrev pub longitude_of : Option Point → Option ℕ
longitude_of none = none
longitude_of (some p) = some p.longitude

pub record AddressCreate : Type 0 where
  pub line1 : ℕ
  pub line2 : Option ℕ
  pub city : ℕ
  pub postal_code : ℕ
  pub is_default : Bool

-- A field that is left out or null is none; `line2` may be cleared.
pub record AddressUpdate : Type 0 where
  pub line1 : Option ℕ
  pub line2 : Option (Option ℕ)
  pub city : Option ℕ
  pub postal_code : Option ℕ
  pub is_default : Option Bool

abbrev pub is_default_of : ℕ → Address → Bool
is_default_of user_id a = a.user_id == user_id && a.is_default

abbrev pub cleared : ℕ → Address → Address
cleared user_id a = if is_default_of user_id a then record a { is_default = false } else a

-- `_clear_default`
unfoldable pub clear_default : ℕ → List Address → List Address
clear_default user_id rows = map (cleared user_id) rows

abbrev pub clear_if : Bool → ℕ → Act (Unit {0})
clear_if test user_id =
    when test (set_db (λ db. record db { addresses = clear_default user_id db.addresses }))

-- `publish_address`
abbrev pub publish_address : Address → Act (Unit {0})
publish_address a =
    record_event Topic.address_events (some a.id)
      (address_changed a.id a.user_id a.city a.latitude a.longitude)

abbrev pub put_address : Address → Act (Unit {0})
put_address a = set_db (λ db. record db { addresses = save address_key a db.addresses })

abbrev pub new_address : ℕ → ℕ → AddressCreate → Option Point → Address
new_address id user_id d point = record {
  id = id;
  user_id = user_id;
  line1 = d.line1;
  line2 = d.line2;
  city = d.city;
  postal_code = d.postal_code;
  is_default = d.is_default;
  latitude = latitude_of point;
  longitude = longitude_of point;
}

abbrev pub store_address : Address → Act Address
store_address a = do put_address a; publish_address a; commit_db; pure a

unfoldable pub add_address : Geocoder → User → AddressCreate → Act Address
add_address geocode u d = do
  clear_if d.is_default u.id
  id ← get_db (λ db. db.next_address_id)
  set_db (λ db. record db { next_address_id = suc id })
  store_address (new_address id u.id d (geocode d.line1 d.city d.postal_code))

abbrev pub is_address_of : ℕ → Option Address → Bool
is_address_of user_id none = false
is_address_of user_id (some a) = a.user_id == user_id

-- `_owned_address`
abbrev pub owned_address : ℕ → ℕ → Act Address
owned_address user_id id = do
  found ← get_db (λ db. find address_key id db.addresses)
  raise_if (not (is_address_of user_id found)) address_not_found
  or_raise found address_not_found

abbrev pub differs : Option ℕ → ℕ → Bool
differs none old = false
differs (some new) old = not (new == old)

-- Whether one of `_LOCATION_FIELDS` changes.
abbrev pub is_moved : AddressUpdate → Address → Bool
is_moved d a =
    differs d.line1 a.line1 || differs d.city a.city || differs d.postal_code a.postal_code

abbrev pub edited : AddressUpdate → Address → Address
edited d a = record a {
  line1 = or_else d.line1 a.line1;
  line2 = or_else d.line2 a.line2;
  city = or_else d.city a.city;
  postal_code = or_else d.postal_code a.postal_code;
  is_default = or_else d.is_default a.is_default;
}

abbrev pub located : Geocoder → Address → Address
located geocode a = record a {
  latitude = latitude_of (geocode a.line1 a.city a.postal_code);
  longitude = longitude_of (geocode a.line1 a.city a.postal_code);
}

abbrev pub revised : Geocoder → AddressUpdate → Address → Address
revised geocode d a = if is_moved d a then located geocode (edited d a) else edited d a

unfoldable pub update_address : Geocoder → User → ℕ → AddressUpdate → Act Address
update_address geocode u id d = do
  a ← owned_address u.id id
  clear_if (or_else d.is_default false) u.id
  store_address (revised geocode d a)

unfoldable pub delete_address : User → ℕ → Act (Unit {0})
delete_address u id = do
  a ← owned_address u.id id
  set_db (λ db. record db { addresses = select (λ x. not (x.id == a.id)) db.addresses })
  commit_db
