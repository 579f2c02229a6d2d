-- ===== src/Delivery/Histories.antt =====
-- What a request does to the table of deliveries.
pub mod Drivers
pub mod Rows
use mathlib.Core.Path.{subst}
use food_delivery_system.Base.{
  ℕ, ◌+◌, ◌≤◌, ◌≡◌, refl, sym, Bool, true, false, not, Option, none, some, List, [], ◌∷◌, begin,
  opened, find, save, find-save, find-key, All, or_else, Result-cases, ok, err, ◌==◌, if◌then◌else◌,
  ◌&&◌, ◌||◌, arith, Bool-cases, Option-cases, inl, inr, IsKeyed, save-IsKeyed,
}
use food_delivery_system.Delivery.Models.{
  DeliveryStatus, unassigned, assigned, accepted, picked_up, delivered, Delivery, OrderSnapshot,
  DeliveryDb, delivery_key, snapshot_key,
}
use food_delivery_system.Delivery.Drivers.{
  is_driver, is_busy, is_active_status, is_carried_by, Radar,
}
use food_delivery_system.Delivery.Drivers.Choice.{
  active_for, active_for-save, load_of, load_of_row, is_busy-active_for,
}
use food_delivery_system.Delivery.Assignment.{
  is_assigned, is_pending_pickup, is_picked_up, offered, released, with_snapshot, new_delivery,
  assign_for_order,
}
use food_delivery_system.Delivery.Consumer.{
  OrderEvent, first_snapshot, overwrite, is_ready, copy_order, apply_order_event, apply_user_event,
  apply_restaurant_event,
}
use food_delivery_system.Delivery.Requests.{
  Request, accept, pick_up, hand_over, reject, reassign, order_event, user_event, restaurant_event,
  is_override, serve,
}
use food_delivery_system.Delivery.Steps.{
  Step, accepts, releases, passes_on, picks_up, hands_over, reassigns, Birth, waits, starts, Change,
  same, born, stepped,
}
use food_delivery_system.Delivery.Steps.Handlers.{
  accept_assignment-Change, pickup-Change, deliver-Change, reject_assignment-Change,
  reassign_delivery_for_order-Change, assign_for_order-Change,
}

copy_order-Change :
    (b : Bool) (radar : Radar) (e : OrderEvent) (id : ℕ) (db : DeliveryDb) (now : ℕ)
    → Change b db.deliveries (copy_order radar none e id (begin db now)).1.durable.deliveries
copy_order-Change b radar e id db now =
    let o = overwrite e (or_else (find snapshot_key id db.snapshots) (first_snapshot id e)) in
    let copied = record db { snapshots = save snapshot_key o db.snapshots } in
    elim (Bool-cases (is_ready o)) [
      | inr idle ↦ rw idle same
      | inl ready ↦
          subst (Change b db.deliveries) (ground (arith, ready))
            (assign_for_order-Change b radar id copied now)
    ]

-- Every request leaves the table as it was, adds a delivery for an order that has none, offered to a
-- driver who carries nothing or to nobody, or takes one row one step of its life; only a reassignment
-- goes outside it.
pub serve-Change :
    (r : Request) (db : DeliveryDb) (now : ℕ)
    → Change (is_override r) db.deliveries (serve r (begin db now)).durable.deliveries
unfolding serve apply_order_event apply_user_event apply_restaurant_event
serve-Change (accept driver_id id) db now = accept_assignment-Change driver_id id db now false
serve-Change (pick_up driver_id id) db now = pickup-Change driver_id id db now false
serve-Change (hand_over driver_id id) db now = deliver-Change driver_id id db now false
serve-Change (reject radar driver_id id) db now =
    reject_assignment-Change radar driver_id id db now false
serve-Change (reassign caller id driver_id) db now =
    reassign_delivery_for_order-Change caller id driver_id db now
serve-Change (order_event radar e) db now = elim (Option-cases e.order_id) [
  | inl missing ↦ rw missing same
  | inr (id, named) ↦ rw named (copy_order-Change false radar e id db now)
]
serve-Change (user_event e) db now = subst (Change false db.deliveries) (ground arith) same
serve-Change (restaurant_event e) db now = subst (Change false db.deliveries) (ground arith) same
