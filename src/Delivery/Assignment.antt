-- ===== src/Delivery/Assignment.antt =====
-- services/delivery/app/service.py, assignment and driver actions.
use food_delivery_system.Base.{
  ℕ, Bool, true, false, not, Option, none, some, String, pure, raise_if, or_raise, gets, get_now,
  send, commit, rollback, ◌>>=◌, ◌>>◌, find, ◌==◌, if◌then◌else◌,
}
use food_delivery_system.Shared.Identity.{Identity, is_admin}
use food_delivery_system.Shared.OutboxEvent.{Topic}
use food_delivery_system.Delivery.Models.{
  DeliveryStatus, unassigned, assigned, accepted, picked_up, delivered, Delivery, OrderSnapshot,
  Driver, RestaurantSnapshot, moved_to, offer, invalidate, delivery_not_found, order_not_found,
  driver_not_found, not_assigned_to_you, not_your_restaurant, not_assigned, not_rejectable,
  not_pickup_ready, not_picked_up, Act, driver_key, restaurant_key, get_delivery, get_snapshot,
  put_delivery, publish,
}
use food_delivery_system.Delivery.Drivers.{Radar, is_driver, is_active_driver, pick_driver}

-- `_announce_status`
abbrev pub announce_status : Delivery → Act (Unit {0})
announce_status d =
    publish Topic.delivery_events d.order_id (moved_to d.order_id (some d.status) d.driver_id)

abbrev pub name_of : Option OrderSnapshot → Option String
name_of none = none
name_of (some o) = o.restaurant_name

-- `_offer_notification`
abbrev pub offer_notification : ℕ → ℕ → Option String → Act (Unit {0})
offer_notification driver_id order_id name =
    publish Topic.notification_events order_id (offer driver_id order_id name)

-- `Delivery(order_id=order_id)`, with the defaults of the table.
abbrev pub new_delivery : ℕ → Delivery
new_delivery id = record {
  order_id = id;
  driver_id = none;
  status = unassigned;
  restaurant_name = none;
  items = none;
  order_total = none;
  assigned_at = none;
  accepted_at = none;
  picked_up_at = none;
  delivered_at = none;
}

-- `if snapshot: …`: the three texts of the order.
abbrev pub with_snapshot : Option OrderSnapshot → Delivery → Delivery
with_snapshot none d = d
with_snapshot (some o) d = record d {
  restaurant_name = o.restaurant_name;
  items = o.items;
  order_total = o.order_total;
}

-- The three writes of an offer to a driver.
abbrev pub offered : ℕ → ℕ → Delivery → Delivery
offered driver_id at d = record d {
  driver_id = some driver_id;
  status = assigned;
  assigned_at = some at;
}

-- A new row, offered if there is a driver; its status is announced before the flush that sets the default.
abbrev pub announce_new : Option OrderSnapshot → Option Driver → Delivery → Act Delivery
announce_new snapshot none d = do
  put_delivery d
  publish Topic.delivery_events d.order_id (moved_to d.order_id none none)
  pure d
announce_new snapshot (some driver) d = do
  at ← get_now
  let o = offered driver.id at d
  offer_notification driver.id d.order_id (name_of snapshot)
  put_delivery o
  announce_status o
  pure o

-- The commit against a row that another consumer may have committed for the order since the check.
abbrev pub commit_or_yield : Option Delivery → Delivery → Act Delivery
commit_or_yield none d = do commit; pure d
commit_or_yield (some winner) d = do rollback; put_delivery winner; commit; pure winner

abbrev pub create_delivery : Radar → Option Delivery → ℕ → Act Delivery
create_delivery radar rival order_id = do
  snapshot ← get_snapshot order_id
  driver ← gets (λ db. pick_driver db radar snapshot none)
  d ← announce_new snapshot driver (with_snapshot snapshot (new_delivery order_id))
  commit_or_yield rival d

abbrev pub or_create : Option Delivery → Act Delivery → Act Delivery
or_create (some existing) new = pure existing
or_create none new = new

unfoldable pub assign_for_order : Radar → Option Delivery → ℕ → Act Delivery
assign_for_order radar rival order_id = do
  existing ← get_delivery order_id
  or_create existing (create_delivery radar rival order_id)

-- `_owned_active`
abbrev pub owned_active : ℕ → ℕ → Act Delivery
owned_active driver_id order_id = do
  found ← get_delivery order_id
  d ← or_raise found delivery_not_found
  raise_if (not (is_driver d.driver_id driver_id)) not_assigned_to_you
  pure d

-- The end of every change: the row, the announcement, the commit, and the estimate that is dropped.
abbrev pub announce_and_commit : Delivery → Act Delivery
announce_and_commit d = do
  put_delivery d
  announce_status d
  commit
  send (invalidate d.order_id)
  pure d

abbrev pub is_assigned : DeliveryStatus → Bool
is_assigned assigned = true
is_assigned _ = false

-- `status in (ASSIGNED, ACCEPTED)`
abbrev pub is_pending_pickup : DeliveryStatus → Bool
is_pending_pickup assigned = true
is_pending_pickup accepted = true
is_pending_pickup _ = false

abbrev pub is_picked_up : DeliveryStatus → Bool
is_picked_up picked_up = true
is_picked_up _ = false

unfoldable pub accept_assignment : ℕ → ℕ → Act Delivery
accept_assignment driver_id order_id = do
  d ← owned_active driver_id order_id
  raise_if (not (is_assigned d.status)) not_assigned
  at ← get_now
  announce_and_commit (record d { status = accepted; accepted_at = some at })

abbrev pub released : Delivery → Delivery
released d = record d { driver_id = none; status = unassigned; accepted_at = none }

-- What is left to do once the next driver is known.
abbrev pub pass_on : Option OrderSnapshot → Option Driver → Delivery → Act Delivery
pass_on snapshot none d = announce_and_commit d
pass_on snapshot (some next) d = do
  at ← get_now
  offer_notification next.id d.order_id (name_of snapshot)
  announce_and_commit (offered next.id at d)

unfoldable pub reject_assignment : Radar → ℕ → ℕ → Act Delivery
reject_assignment radar driver_id order_id = do
  d ← owned_active driver_id order_id
  raise_if (not (is_pending_pickup d.status)) not_rejectable
  put_delivery (released d)
  snapshot ← get_snapshot order_id
  next ← gets (λ db. pick_driver db radar snapshot (some driver_id))
  pass_on snapshot next (released d)

unfoldable pub pickup : ℕ → ℕ → Act Delivery
pickup driver_id order_id = do
  d ← owned_active driver_id order_id
  raise_if (not (is_pending_pickup d.status)) not_pickup_ready
  at ← get_now
  announce_and_commit (record d { status = picked_up; picked_up_at = some at })

unfoldable pub deliver : ℕ → ℕ → Act Delivery
deliver driver_id order_id = do
  d ← owned_active driver_id order_id
  raise_if (not (is_picked_up d.status)) not_picked_up
  at ← get_now
  announce_and_commit (record d { status = delivered; delivered_at = some at })

-- The restaurant behind an order, for a caller who is not an admin.
abbrev pub restaurant_of : Option OrderSnapshot → Option ℕ
restaurant_of none = none
restaurant_of (some o) = o.restaurant_id

abbrev pub owns : Identity → Option RestaurantSnapshot → Bool
owns caller none = false
owns caller (some r) = r.owner_id == caller.user_id

abbrev pub owned_by_owner : Identity → ℕ → Act (Unit {0})
owned_by_owner caller order_id = do
  snapshot ← get_snapshot order_id
  restaurant_id ← or_raise (restaurant_of snapshot) order_not_found
  restaurant ← gets (λ db. find restaurant_key restaurant_id db.restaurants)
  raise_if (not (owns caller restaurant)) not_your_restaurant

-- `_owned_order`
abbrev pub owned_order : Identity → ℕ → Act (Unit {0})
owned_order caller order_id =
    if is_admin caller.role then pure tt else owned_by_owner caller order_id

unfoldable pub reassign_delivery_for_order : Identity → ℕ → ℕ → Act Delivery
reassign_delivery_for_order caller order_id new_driver_id = do
  found ← get_delivery order_id
  d ← or_raise found delivery_not_found
  owned_order caller order_id
  driver ← gets (λ db. find driver_key new_driver_id db.drivers)
  raise_if (not (is_active_driver driver)) driver_not_found
  snapshot ← get_snapshot order_id
  at ← get_now
  offer_notification new_driver_id order_id (name_of snapshot)
  announce_and_commit (offered new_driver_id at (with_snapshot snapshot d))
