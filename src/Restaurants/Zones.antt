-- ===== src/Restaurants/Zones.antt =====
-- services/restaurants/app/zones.py: can this restaurant deliver to this address? Lengths are whole metres.
-- The distance, `haversine_km` of providers.py, is float trigonometry, and the folding of case and space is
-- Python's, so both are arguments.
use food_delivery_system.Base.{ℕ, Bool, Option, none, some, String, leb, if◌then◌else◌}
use food_delivery_system.Restaurants.Models.{Restaurant}

pub record Coordinate : Type 0 where
  pub latitude : ℕ
  pub longitude : ℕ

pub record AddressPoint : Type 0 where
  pub city : String
  pub latitude : Option ℕ
  pub longitude : Option ℕ

-- `round(haversine_km(a, b), 2)`, and whether two texts are equal once stripped and case-folded.
pub record Geometry : Type 0 where
  pub distance : Coordinate → Coordinate → ℕ
  pub is_same_text : String → String → Bool

pub data Basis : Type 0 where
  by_radius by_city : Basis

pub record ZoneVerdict : Type 0 where
  pub serviceable : Bool
  pub basis : Basis
  pub distance : Option ℕ
  pub radius : Option ℕ

-- `settings.delivery_default_radius_km`
abbrev pub delivery_default_radius : ℕ
delivery_default_radius = 10000

abbrev pub radius_or_default : Option ℕ → ℕ
radius_or_default none = delivery_default_radius
radius_or_default (some configured) =
    if leb configured 0 then delivery_default_radius else configured

abbrev pub effective_radius : Restaurant → ℕ
effective_radius r = radius_or_default r.delivery_radius

-- `_coord`
abbrev pub coord : Option ℕ → Option ℕ → Option Coordinate
coord none longitude = none
coord (some latitude) none = none
coord (some latitude) (some longitude) =
    some (record { latitude = latitude; longitude = longitude })

abbrev pub by_city_verdict : Bool → ZoneVerdict
by_city_verdict same = record {
  serviceable = same;
  basis = by_city;
  distance = none;
  radius = none;
}

abbrev pub by_radius_verdict : ℕ → ℕ → ZoneVerdict
by_radius_verdict distance radius = record {
  serviceable = leb distance radius;
  basis = by_radius;
  distance = some distance;
  radius = some radius;
}

abbrev pub verdict_of :
    Geometry → Restaurant → AddressPoint → Option Coordinate → Option Coordinate → ZoneVerdict
verdict_of g r a none destination = by_city_verdict (g.is_same_text a.city r.city)
verdict_of g r a (some origin) none = by_city_verdict (g.is_same_text a.city r.city)
verdict_of g r a (some origin) (some destination) =
    by_radius_verdict (g.distance origin destination) (effective_radius r)

unfoldable pub check : Geometry → Restaurant → AddressPoint → ZoneVerdict
check g r a = verdict_of g r a (coord r.latitude r.longitude) (coord a.latitude a.longitude)
