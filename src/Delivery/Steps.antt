-- ===== src/Delivery/Steps.antt =====
-- The life of a delivery as a relation: what one request may do to one row.
pub mod Handlers
use food_delivery_system.Base.{ℕ, ◌≡◌, Bool, true, false, Option, none, some, List, find, save}
use food_delivery_system.Delivery.Models.{
  DeliveryStatus, assigned, accepted, picked_up, delivered, Delivery, OrderSnapshot, DeliveryDb,
  delivery_key,
}
use food_delivery_system.Delivery.Drivers.{is_driver, is_busy}
use food_delivery_system.Delivery.Assignment.{
  is_assigned, is_pending_pickup, is_picked_up, offered, released, with_snapshot, new_delivery,
}

-- A step of a row, among the rows of the table. Only an override is a reassignment.
pub data Step (override : Bool) (rows : List Delivery) (d : Delivery) : Delivery → Type 0 where
  accepts :
      (at : ℕ)
      → is_assigned d.status ≡ true
      → Step override rows d (record d { status = accepted; accepted_at = some at })
  releases : is_pending_pickup d.status ≡ true → Step override rows d (released d)
  passes_on :
      (driver at : ℕ)
      → is_pending_pickup d.status ≡ true
      → is_driver d.driver_id driver ≡ false
      → is_busy driver (save delivery_key (released d) rows) ≡ false
      → Step override rows d (offered driver at (released d))
  picks_up :
      (at : ℕ)
      → is_pending_pickup d.status ≡ true
      → Step override rows d (record d { status = picked_up; picked_up_at = some at })
  hands_over :
      (at : ℕ)
      → is_picked_up d.status ≡ true
      → Step override rows d (record d { status = delivered; delivered_at = some at })
  reassigns :
      (driver at : ℕ) (o : Option OrderSnapshot)
      → override ≡ true
      → Step override rows d (offered driver at (with_snapshot o d))

-- A new row, offered to a driver who is free or to nobody.
pub data Birth (rows : List Delivery) (id : ℕ) : Delivery → Type 0 where
  waits : (o : Option OrderSnapshot) → Birth rows id (with_snapshot o (new_delivery id))
  starts :
      (o : Option OrderSnapshot) (driver at : ℕ)
      → is_busy driver rows ≡ false
      → Birth rows id (offered driver at (with_snapshot o (new_delivery id)))

-- What a request does to the table: nothing, a new row, or a step of one row.
pub data Change (override : Bool) (rows : List Delivery) : List Delivery → Type 0 where
  same : Change override rows rows
  born :
      (id : ℕ) (v : Delivery)
      → find delivery_key id rows ≡ none
      → v.order_id ≡ id
      → Birth rows id v
      → Change override rows (save delivery_key v rows)
  stepped :
      (d v : Delivery)
      → find delivery_key d.order_id rows ≡ some d
      → v.order_id ≡ d.order_id
      → Step override rows d v
      → Change override rows (save delivery_key v rows)
