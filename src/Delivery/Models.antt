-- ===== src/Delivery/Models.antt =====
-- services/delivery/app/models.py: the tables of the delivery service, and its errors. A coordinate is
-- a float that this service hands on, so it is its bit pattern; the texts copied for display stay texts.
use food_delivery_system.Base.{
  ℕ, Bool, Option, some, List, ◌∷◌, String, Action, Session, gets, modify, find, save,
}
use food_delivery_system.Shared.OutboxEvent.{OutboxEvent, Topic, outbox_event}

pub data DeliveryStatus : Type 0 where
  unassigned assigned accepted picked_up delivered : DeliveryStatus

pub record Delivery : Type 0 where
  pub order_id : ℕ
  pub driver_id : Option ℕ
  pub status : DeliveryStatus
  pub restaurant_name : Option String
  pub items : Option String
  pub order_total : Option String
  pub assigned_at : Option ℕ
  pub accepted_at : Option ℕ
  pub picked_up_at : Option ℕ
  pub delivered_at : Option ℕ

pub record OrderSnapshot : Type 0 where
  pub order_id : ℕ
  pub customer_id : ℕ
  pub customer_name : Option String
  pub restaurant_id : Option ℕ
  pub restaurant_name : Option String
  pub status : String
  pub items : Option String
  pub order_total : Option String
  pub delivery_address : Option String
  pub restaurant_latitude : Option ℕ
  pub restaurant_longitude : Option ℕ
  pub destination_latitude : Option ℕ
  pub destination_longitude : Option ℕ

pub record Driver : Type 0 where
  pub id : ℕ
  pub first_name : String
  pub last_name : String
  pub is_active : Bool

pub record RestaurantSnapshot : Type 0 where
  pub restaurant_id : ℕ
  pub owner_id : ℕ

-- What `_announce_status` and `_offer_notification` record. The status of a row that was not flushed yet
-- and that no line has set is None there.
pub data Payload : Type 0 where
  moved_to : ℕ → Option DeliveryStatus → Option ℕ → Payload
  offer : ℕ → ℕ → Option String → Payload

pub record DeliveryDb : Type 0 where
  pub deliveries : List Delivery
  pub snapshots : List OrderSnapshot
  pub drivers : List Driver
  pub restaurants : List RestaurantSnapshot
  pub outbox : List (OutboxEvent Payload)

-- `eta.invalidate`, which deletes the order's cached estimate.
pub data Call : Type 0 where
  invalidate : ℕ → Call

pub data Error : Type 0 where
  delivery_not_found order_not_found driver_not_found : Error
  not_assigned_to_you not_your_restaurant not_your_order : Error
  not_assigned not_rejectable not_pickup_ready not_picked_up : Error

abbrev pub Act : Type 0 → Type 0
Act A = Action Error (Session DeliveryDb Call) A

abbrev pub delivery_key : Delivery → ℕ
delivery_key d = d.order_id

abbrev pub snapshot_key : OrderSnapshot → ℕ
snapshot_key o = o.order_id

abbrev pub driver_key : Driver → ℕ
driver_key d = d.id

abbrev pub restaurant_key : RestaurantSnapshot → ℕ
restaurant_key r = r.restaurant_id

abbrev pub get_delivery : ℕ → Act (Option Delivery)
get_delivery order_id = gets (λ db. find delivery_key order_id db.deliveries)

abbrev pub get_snapshot : ℕ → Act (Option OrderSnapshot)
get_snapshot order_id = gets (λ db. find snapshot_key order_id db.snapshots)

abbrev pub put_delivery : Delivery → Act (Unit {0})
put_delivery d = modify (λ db. record db { deliveries = save delivery_key d db.deliveries })

-- `_publish`
abbrev pub publish : Topic → ℕ → Payload → Act (Unit {0})
publish topic key payload =
    modify (λ db. record db { outbox = outbox_event topic (some key) payload ∷ db.outbox })
