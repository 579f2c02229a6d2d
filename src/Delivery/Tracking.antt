-- ===== src/Delivery/Tracking.antt =====
-- services/delivery/app/eta.py, and `tracking_for_order` and `list_for_driver` of service.py. The routing
-- provider is an argument: what it answers for a list of points. An entry of the cache that cannot be
-- read is `none` in `read`.
use food_delivery_system.Base.{
  ℕ, Bool, true, false, not, Option, none, some, List, [], ◌∷◌, String, Result, ok, err, find, save,
  select, ◌==◌, if◌then◌else◌, ◌&&◌, ◌||◌,
}
use food_delivery_system.Shared.Identity.{Identity, Role}
use food_delivery_system.Delivery.Models.{
  DeliveryStatus, unassigned, picked_up, delivered, Delivery, OrderSnapshot, DeliveryDb, Error,
  delivery_not_found, not_your_order, delivery_key, snapshot_key,
}
use food_delivery_system.Delivery.Drivers.{is_active_status, is_driver}
use food_delivery_system.Delivery.Location.{Position, Redis, get_location}

pub record Coordinate : Type 0 where
  pub latitude : ℕ
  pub longitude : Option ℕ

pub record RouteEstimate : Type 0 where
  pub distance_km : ℕ
  pub duration_minutes : ℕ
  pub source : String

-- `status in _CARRYING`
abbrev pub is_carrying : DeliveryStatus → Bool
is_carrying picked_up = true
is_carrying delivered = true
is_carrying _ = false

-- `[point for point in candidates if point is not None]`
abbrev pub known : List (Option Coordinate) → List Coordinate
known [] = []
known (none ∷ ps) = known ps
known (some p ∷ ps) = p ∷ known ps

-- `points if len(points) >= 2 else []`
abbrev pub two_or_more : List Coordinate → List Coordinate
two_or_more (p ∷ q ∷ ps) = p ∷ q ∷ ps
two_or_more _ = []

unfoldable pub waypoints_for :
    DeliveryStatus → Option Coordinate → Option Coordinate → Option Coordinate → List Coordinate
waypoints_for status driver restaurant destination = two_or_more (
    known (
      if is_carrying status
      then driver ∷ destination ∷ []
      else driver ∷ restaurant ∷ destination ∷ []))

-- A cached estimate under its order; the expiry of the key is left out.
pub record CachedEta : Type 0 where
  pub order_id : ℕ
  pub estimate : Option RouteEstimate

abbrev pub eta_key : CachedEta → ℕ
eta_key c = c.order_id

abbrev pub is_route : List Coordinate → Bool
is_route (p ∷ q ∷ ps) = true
is_route _ = false

abbrev pub remember :
    ℕ → Option RouteEstimate → List CachedEta → Option RouteEstimate × List CachedEta
remember id none cache = (none, cache)
remember id (some e) cache =
    (some e, save eta_key (record { order_id = id; estimate = some e }) cache)

abbrev pub readable : Option CachedEta → Option RouteEstimate
readable none = none
readable (some c) = c.estimate

abbrev pub cached_or :
    Option RouteEstimate
    → ℕ
    → Option RouteEstimate
    → List CachedEta
    → Option RouteEstimate × List CachedEta
cached_or (some e) id fresh cache = (some e, cache)
cached_or none id fresh cache = remember id fresh cache

-- With Redis: the estimate, and the cache afterwards.
unfoldable pub estimate_for_order :
    (List Coordinate → Option RouteEstimate)
    → ℕ
    → List Coordinate
    → List CachedEta
    → Option RouteEstimate × List CachedEta
estimate_for_order route id waypoints cache =
    if is_route waypoints
    then cached_or (readable (find eta_key id cache)) id (route waypoints) cache
    else (none, cache)

unfoldable pub invalidate_eta : ℕ → List CachedEta → List CachedEta
invalidate_eta id = select (λ c. not (c.order_id == id))

abbrev pub restaurant_coord : Option OrderSnapshot → Option Coordinate
restaurant_coord none = none
restaurant_coord (some o) = elim o.restaurant_latitude [
  | none ↦ none
  | some latitude ↦ some (record { latitude = latitude; longitude = o.restaurant_longitude })
]

abbrev pub destination_coord : Option OrderSnapshot → Option Coordinate
destination_coord none = none
destination_coord (some o) = elim o.destination_latitude [
  | none ↦ none
  | some latitude ↦ some (record { latitude = latitude; longitude = o.destination_longitude })
]

pub record TrackingRead : Type 0 where
  pub order_id : ℕ
  pub status : DeliveryStatus
  pub driver_id : Option ℕ
  pub driver : Option Coordinate
  pub restaurant : Option Coordinate
  pub destination : Option Coordinate
  pub eta : Option RouteEstimate

-- `caller_role in ("admin", "restaurant")`
abbrev pub is_trusted : Role → Bool
is_trusted Role.admin = true
is_trusted Role.restaurant = true
is_trusted _ = false

abbrev pub is_customer_of : ℕ → Option OrderSnapshot → Bool
is_customer_of id none = false
is_customer_of id (some o) = o.customer_id == id

abbrev pub status_of : Option Delivery → DeliveryStatus
status_of none = unassigned
status_of (some d) = d.status

abbrev pub driver_of : Option Delivery → Option ℕ
driver_of none = none
driver_of (some d) = d.driver_id

abbrev pub position_of : Option Position → Option Coordinate
position_of none = none
position_of (some p) = some (record { latitude = p.latitude; longitude = some p.longitude })

abbrev pub driver_point : Redis → Option ℕ → Option Coordinate
driver_point redis none = none
driver_point redis (some id) = position_of (get_location id redis)

abbrev pub is_missing : Option Delivery → Option OrderSnapshot → Bool
is_missing none none = true
is_missing _ _ = false

-- The view, with Redis: what the caller sees, and the cache afterwards.
abbrev pub tracking_view :
    (List Coordinate → Option RouteEstimate)
    → Redis
    → ℕ
    → Option Delivery
    → Option OrderSnapshot
    → List CachedEta
    → TrackingRead × List CachedEta
tracking_view route redis order_id delivery snapshot cache =
    let point = driver_point redis (driver_of delivery) in
    let waypoints =
      waypoints_for (status_of delivery) point (restaurant_coord snapshot)
        (destination_coord snapshot) in
    let (eta, cache') = estimate_for_order route order_id waypoints cache in
    (
      record {
        order_id = order_id;
        status = status_of delivery;
        driver_id = driver_of delivery;
        driver = point;
        restaurant = restaurant_coord snapshot;
        destination = destination_coord snapshot;
        eta = eta;
      },
      cache',
    )

unfoldable pub tracking_for_order :
    (List Coordinate → Option RouteEstimate)
    → DeliveryDb
    → Identity
    → Redis
    → ℕ
    → List CachedEta
    → Result Error TrackingRead × List CachedEta
tracking_for_order route db caller redis order_id cache =
    let delivery = find delivery_key order_id db.deliveries in
    let snapshot = find snapshot_key order_id db.snapshots in
    let (view, cache') = tracking_view route redis order_id delivery snapshot cache in
    if is_missing delivery snapshot
    then (err delivery_not_found, cache)
    else if is_trusted caller.role || is_customer_of caller.user_id snapshot
    then (ok view, cache')
    else (err not_your_order, cache)

-- A driver's active deliveries, in the order of the table.
unfoldable pub list_for_driver : DeliveryDb → ℕ → List Delivery
list_for_driver db driver_id =
    select (λ d. is_driver d.driver_id driver_id && is_active_status d.status) db.deliveries
