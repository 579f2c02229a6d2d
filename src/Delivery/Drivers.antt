-- ===== src/Delivery/Drivers.antt =====
-- services/delivery/app/service.py, driver selection, and location.py. GEOSEARCH is an argument: the ids
-- that it answers, nearest first, or `none` where there is no Redis.
pub mod Choice
use food_delivery_system.Base.{
  ℕ, Bool, true, false, not, Option, none, some, List, [], ◌∷◌, find, select, ◌==◌, if◌then◌else◌,
  ◌&&◌, ◌||◌,
}
use food_delivery_system.Delivery.Models.{
  DeliveryStatus, unassigned, assigned, accepted, picked_up, delivered, Delivery, OrderSnapshot,
  Driver, driver_key, DeliveryDb,
}

-- `status in ACTIVE_STATUSES`
abbrev pub is_active_status : DeliveryStatus → Bool
is_active_status assigned = true
is_active_status accepted = true
is_active_status picked_up = true
is_active_status _ = false

abbrev pub is_driver : Option ℕ → ℕ → Bool
is_driver none id = false
is_driver (some d) id = d == id

-- A delivery that keeps a driver busy.
abbrev pub is_carried_by : ℕ → Delivery → Bool
is_carried_by id d = is_active_status d.status && is_driver d.driver_id id

-- `id in _busy_driver_ids`
unfoldable pub is_busy : ℕ → List Delivery → Bool
is_busy id [] = false
is_busy id (d ∷ ds) = is_carried_by id d || is_busy id ds

unfoldable pub list_available_drivers : DeliveryDb → List Driver
list_available_drivers db = select (λ d. d.is_active && not (is_busy d.id db.deliveries)) db.drivers

abbrev pub is_active_driver : Option Driver → Bool
is_active_driver none = false
is_active_driver (some d) = d.is_active

-- The loop of `_nearest_available` over the ids of GEOSEARCH.
unfoldable pub nearest_of : DeliveryDb → Option ℕ → List ℕ → Option Driver
nearest_of db exclude [] = none
nearest_of db exclude (id ∷ ids) =
    let rest = nearest_of db exclude ids in
    let stored = find driver_key id db.drivers in
    if is_busy id db.deliveries || is_driver exclude id
    then rest
    else if is_active_driver stored
    then stored
    else rest

-- What GEOSEARCH answers around a point.
abbrev pub Radar : Type 0
Radar = Option (ℕ → Option ℕ → List ℕ)

abbrev pub nearest_available : DeliveryDb → Radar → ℕ → Option ℕ → Option ℕ → Option Driver
nearest_available db none latitude longitude exclude = none
nearest_available db (some search) latitude longitude exclude =
    nearest_of db exclude (search latitude longitude)

-- `for driver in …: if driver.id != exclude: return driver`
unfoldable pub first_other : Option ℕ → List Driver → Option Driver
first_other exclude [] = none
first_other exclude (d ∷ ds) = if is_driver exclude d.id then first_other exclude ds else some d

abbrev pub or_other : Option Driver → Option Driver → Option Driver
or_other none other = other
or_other (some d) other = some d

abbrev pub near_restaurant : DeliveryDb → Radar → Option OrderSnapshot → Option ℕ → Option Driver
near_restaurant db radar none exclude = none
near_restaurant db radar (some o) exclude = elim o.restaurant_latitude [
  | none ↦ none
  | some latitude ↦ nearest_available db radar latitude o.restaurant_longitude exclude
]

unfoldable pub pick_driver : DeliveryDb → Radar → Option OrderSnapshot → Option ℕ → Option Driver
pick_driver db radar snapshot exclude =
    or_other (near_restaurant db radar snapshot exclude)
      (first_other exclude (list_available_drivers db))
