-- ===== src/Delivery/Drivers/Choice.antt =====
-- Whom `pick_driver` picks, and how many deliveries a driver carries.
use food_delivery_system.Base.{
  ℕ, ◌+◌, ◌≡◌, refl, true, false, not, Option, none, some, List, [], ◌∷◌, find, find-key, save, All,
  All-select, ◌==◌, if◌then◌else◌, ◌&&◌, ◌||◌, arith, Bool-cases, Option-cases, inl, inr,
}
use food_delivery_system.Delivery.Models.{
  Delivery, OrderSnapshot, Driver, DeliveryDb, delivery_key, driver_key,
}
use food_delivery_system.Delivery.Drivers.{
  is_driver, is_carried_by, is_busy, list_available_drivers, is_active_driver, nearest_of, Radar,
  first_other, near_restaurant, pick_driver,
}

abbrev pub load_of : ℕ → Delivery → ℕ
load_of id d = if is_carried_by id d then 1 else 0

abbrev pub load_of_row : ℕ → Option Delivery → ℕ
load_of_row id none = 0
load_of_row id (some d) = load_of id d

-- How many active deliveries a driver has.
unfoldable pub active_for : ℕ → List Delivery → ℕ
active_for id [] = 0
active_for id (d ∷ ds) = load_of id d + active_for id ds

-- A written row replaces what the row of its order counted for.
pub active_for-save :
    (id : ℕ) (v : Delivery) (rows : List Delivery)
    → active_for id (save delivery_key v rows) + load_of_row id (find delivery_key v.order_id rows)
      ≡ active_for id rows + load_of id v
unfolding active_for find save
active_for-save id v [] = omega arith
active_for-save id v (x ∷ xs) = elim (Bool-cases (x.order_id == v.order_id)) [
  | inl here ↦ rw here (omega arith)
  | inr there ↦ rw there (omega (arith, active_for-save id v xs))
]

pub is_busy-active_for :
    (id : ℕ) (rows : List Delivery) → is_busy id rows ≡ false → active_for id rows ≡ 0
unfolding is_busy active_for
is_busy-active_for id [] h = refl
is_busy-active_for id (x ∷ xs) h = ground (arith, is_busy-active_for id xs)

-- A driver that may be offered a delivery.
pub record IsFree (db : DeliveryDb) (exclude : Option ℕ) (d : Driver) : Type 0 where
  pub active : d.is_active ≡ true
  pub idle : is_busy d.id db.deliveries ≡ false
  pub other : is_driver exclude d.id ≡ false

nearest_of-IsFree :
    (db : DeliveryDb) (exclude : Option ℕ) (ids : List ℕ) (d : Driver)
    → nearest_of db exclude ids ≡ some d
    → IsFree db exclude d
unfolding nearest_of
nearest_of-IsFree db exclude [] d h = cc
nearest_of-IsFree db exclude (id ∷ ids) d h =
    elim (Bool-cases (is_busy id db.deliveries || is_driver exclude id)) [
      | inl out ↦ nearest_of-IsFree db exclude ids d (rw out at h)
      | inr free ↦ elim (Bool-cases (is_active_driver (find driver_key id db.drivers))) [
        | inr gone ↦ nearest_of-IsFree db exclude ids d (rw (free, gone) at h)
        | inl there ↦
            let found : find driver_key id db.drivers ≡ some d = ground (arith, h, free, there) in
            let same : d.id ≡ id = find-key driver_key id d db.drivers found in
            record {
              active = ground (arith, found, there);
              idle = ground (arith, same, free);
              other = ground (arith, same, free);
            }
      ]
    ]

first_other-IsFree :
    (db : DeliveryDb) (exclude : Option ℕ) (ds : List Driver) (d : Driver)
    → All (λ x. (x.is_active && not (is_busy x.id db.deliveries)) ≡ true) ds
    → first_other exclude ds ≡ some d
    → IsFree db exclude d
unfolding first_other
first_other-IsFree db exclude [] d a h = cc
first_other-IsFree db exclude (x ∷ xs) d a h = elim (Bool-cases (is_driver exclude x.id)) [
  | inl out ↦ first_other-IsFree db exclude xs d a.1 (rw out at h)
  | inr in_it ↦
      let same : x ≡ d = ground (arith, h, in_it) in
      record {
        active = ground (arith, same, a.0);
        idle = ground (arith, same, a.0);
        other = ground (arith, same, in_it);
      }
]

near_restaurant-IsFree :
    (db : DeliveryDb) (radar : Radar) (snapshot : Option OrderSnapshot) (exclude : Option ℕ)
    (d : Driver)
    → near_restaurant db radar snapshot exclude ≡ some d
    → IsFree db exclude d
near_restaurant-IsFree db radar none exclude d h = cc
near_restaurant-IsFree db none (some o) exclude d h = ground (arith, h)
near_restaurant-IsFree db (some search) (some o) exclude d h =
    elim (Option-cases o.restaurant_latitude) [
      | inl off ↦ ground (arith, h, off)
      | inr (latitude, on) ↦
          nearest_of-IsFree db exclude (search latitude o.restaurant_longitude) d
            (ground (arith, h, on))
    ]

available-All :
    (db : DeliveryDb)
    → All
        (λ x. (x.is_active && not (is_busy x.id db.deliveries)) ≡ true)
        (list_available_drivers db)
unfolding list_available_drivers
available-All db = All-select (λ d. d.is_active && not (is_busy d.id db.deliveries)) db.drivers

-- The driver that is picked for an offer is active, carries no delivery, and is not the one excluded.
pub pick_driver-IsFree :
    (db : DeliveryDb) (radar : Radar) (snapshot : Option OrderSnapshot) (exclude : Option ℕ)
    (d : Driver)
    → pick_driver db radar snapshot exclude ≡ some d
    → IsFree db exclude d
unfolding pick_driver
pick_driver-IsFree db radar snapshot exclude d h =
    elim (Option-cases (near_restaurant db radar snapshot exclude)) [
      | inl far ↦
          first_other-IsFree db exclude (list_available_drivers db) d (available-All db)
            (ground (arith, h, far))
      | inr (x, near) ↦ near_restaurant-IsFree db radar snapshot exclude d (ground (arith, h, near))
    ]

first_other-none :
    (exclude : Option ℕ) (ds : List Driver)
    → first_other exclude ds ≡ none
    → All (λ x. is_driver exclude x.id ≡ true) ds
unfolding first_other
first_other-none exclude [] h = tt
first_other-none exclude (x ∷ xs) h = elim (Bool-cases (is_driver exclude x.id)) [
  | inl out ↦ (out, first_other-none exclude xs (rw out at h))
  | inr in_it ↦ ground (arith, h, in_it)
]

-- Nobody is picked only if every available driver is the one excluded, wherever they are.
pub pick_driver-none :
    (db : DeliveryDb) (radar : Radar) (snapshot : Option OrderSnapshot) (exclude : Option ℕ)
    → pick_driver db radar snapshot exclude ≡ none
    → All (λ x. is_driver exclude x.id ≡ true) (list_available_drivers db)
unfolding pick_driver
pick_driver-none db radar snapshot exclude h =
    first_other-none exclude (list_available_drivers db) (ground (arith, h))
