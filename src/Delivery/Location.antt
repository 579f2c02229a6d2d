-- ===== src/Delivery/Location.antt =====
-- services/delivery/app/location.py: the two keys of Redis, the drivers that accept work and where they
-- were last. GEOSEARCH over the stored positions is an argument.
use food_delivery_system.Base.{
  ℕ, Bool, true, false, not, Option, some, List, [], ◌∷◌, find, save, select, ◌==◌, if◌then◌else◌,
  ◌||◌,
}
use food_delivery_system.Delivery.Drivers.{Radar}

pub record Position : Type 0 where
  pub driver_id : ℕ
  pub longitude : ℕ
  pub latitude : ℕ

abbrev pub position_key : Position → ℕ
position_key p = p.driver_id

pub record Redis : Type 0 where
  pub online : List ℕ
  pub geo : List Position

abbrev pub is_in : ℕ → List ℕ → Bool
is_in x [] = false
is_in x (y ∷ ys) = y == x || is_in x ys

abbrev pub is_online : Redis → ℕ → Bool
is_online r id = is_in id r.online

-- SADD
abbrev pub add_online : ℕ → List ℕ → List ℕ
add_online id l = if is_in id l then l else id ∷ l

abbrev pub remove : ℕ → List ℕ → List ℕ
remove id = select (λ x. not (x == id))

unfoldable pub set_online : ℕ → Bool → Redis → Redis
set_online id true r = record r { online = add_online id r.online }
set_online id false r = record {
  online = remove id r.online;
  geo = select (λ p. not (p.driver_id == id)) r.geo;
}

unfoldable pub update_location : ℕ → ℕ → ℕ → Redis → Redis
update_location id latitude longitude r = record {
  online = add_online id r.online;
  geo =
      save position_key (record { driver_id = id; longitude = longitude; latitude = latitude })
        r.geo;
}

unfoldable pub get_location : ℕ → Redis → Option Position
get_location id r = find position_key id r.geo

-- `nearby_driver_ids` with its radius of 10 km and its count of 10
abbrev pub radar_of : (List Position → ℕ → Option ℕ → List ℕ) → Redis → Radar
radar_of geosearch r = some (geosearch r.geo)
