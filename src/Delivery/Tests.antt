-- ===== src/Delivery/Tests.antt =====
-- The theorems of the delivery service at a sample database: drivers 5 and 6, a delivery of order 1 that is
-- offered to driver 5, one of order 2 that waits, and one of order 3 that driver 5 made.
use food_delivery_system.Base.{
  ℕ, ◌+◌, ◌≡◌, refl, true, none, some, List, [], ◌∷◌, begin, find, All, arith,
}
use food_delivery_system.Shared.Identity.{Role}
use food_delivery_system.Delivery.Models.{delivered, Delivery, Driver, DeliveryDb, delivery_key}
use food_delivery_system.Delivery.Drivers.Choice.{active_for}
use food_delivery_system.Delivery.Assignment.{
  offered, new_delivery, reassign_delivery_for_order, pickup, deliver,
}
use food_delivery_system.Delivery.Requests.{Request, accept, reject, pick_up, serve_all}
use food_delivery_system.Delivery.Histories.Drivers.{IsExclusive, serve_all-IsExclusive}
use food_delivery_system.Delivery.Histories.Rows.{IsSound, serve_all-idle, serve_all-IsSound}
use food_delivery_system.Delivery.Gaps.{reassign-redelivers}

abbrev waiting : Delivery
waiting = new_delivery 2

abbrev made : Delivery
made = record (offered 5 10 (new_delivery 3)) {
  status = delivered;
  picked_up_at = some 20;
  delivered_at = some 30;
}

abbrev driver_of : ℕ → Driver
driver_of id = record { id = id; first_name = "Ada"; last_name = "Rao"; is_active = true }

abbrev sample : DeliveryDb
sample = record {
  deliveries = offered 5 40 (new_delivery 1) ∷ waiting ∷ made ∷ [];
  snapshots = [];
  drivers = driver_of 5 ∷ driver_of 6 ∷ [];
  restaurants = [];
  outbox = [];
}

abbrev day : List (ℕ × Request)
day = (50, reject none 5 1) ∷ (60, accept 6 1) ∷ (70, pick_up 6 1) ∷ []

sample-IsExclusive : IsExclusive sample.deliveries
unfolding active_for
sample-IsExclusive id = ground arith

sample-IsSound : All IsSound sample.deliveries
sample-IsSound = (
  record { driven = refl; stamped = refl },
  (record { driven = refl; stamped = refl }, (record { driven = refl; stamped = refl }, tt)),
)

serve_all-IsExclusive_example : IsExclusive (serve_all day sample).deliveries
serve_all-IsExclusive_example =
    serve_all-IsExclusive day sample (refl, (refl, (refl, tt))) sample-IsExclusive

serve_all-IsSound_example : All IsSound (serve_all day sample).deliveries
serve_all-IsSound_example = serve_all-IsSound day sample sample-IsSound

serve_all-idle_example : find delivery_key 2 (serve_all day sample).deliveries ≡ some waiting
unfolding find
serve_all-idle_example = serve_all-idle day sample 2 waiting (refl, (refl, (refl, tt))) refl refl

reassign-redelivers_example :
    let again =
      (reassign_delivery_for_order
        (record { user_id = 9; role = Role.admin })
        3
        5
        (begin sample 80)).1.durable in
    let carried = (pickup 5 3 (begin again 90)).1.durable in
    let redone = (deliver 5 3 (begin carried 99)).1.durable in
    (active_for 5 again.deliveries ≡ active_for 5 sample.deliveries + 1)
    × ((d' : Delivery) × (find delivery_key 3 redone.deliveries ≡ some d')
        × (d'.driver_id ≡ some 5)
        × (d'.status ≡ delivered)
        × (d'.delivered_at ≡ some 99))
unfolding find
reassign-redelivers_example =
    reassign-redelivers 3 5 (record { user_id = 9; role = Role.admin }) 80 90 99 sample made
      (driver_of 5) refl refl refl refl refl
