-- ===== src/Delivery/Gaps.antt =====
-- Where the delivery service does not do what its comments say.
use food_delivery_system.Base.{
  ℕ, ◌+◌, ◌≡◌, refl, ap, ◌∙◌, true, Option, none, some, begin, find, save, find-save, find-key,
  arith,
}
use food_delivery_system.Shared.Identity.{Identity, is_admin}
use food_delivery_system.Delivery.Models.{
  assigned, picked_up, delivered, Delivery, Driver, DeliveryDb, OrderSnapshot, delivery_key,
  driver_key, snapshot_key,
}
use food_delivery_system.Delivery.Assignment.{
  offered, with_snapshot, reassign_delivery_for_order, pickup, deliver,
}
use food_delivery_system.Delivery.Drivers.Choice.{active_for, active_for-save, load_of, load_of_row}

module _ (id driver_id : ℕ) where
  -- The row of the order after a reassignment by an admin.
  reassign-row :
      (caller : Identity) (now : ℕ) (db : DeliveryDb) (d : Delivery) (driver : Driver)
      → is_admin caller.role ≡ true
      → find delivery_key id db.deliveries ≡ some d
      → find driver_key driver_id db.drivers ≡ some driver
      → driver.is_active ≡ true
      → (reassign_delivery_for_order caller id driver_id (begin db now)).1.durable.deliveries
        ≡ save delivery_key
            (offered driver_id now (with_snapshot (find snapshot_key id db.snapshots) d))
            db.deliveries
  unfolding reassign_delivery_for_order
  reassign-row caller now db d driver admin e there active = ground arith

  pickup-row :
      (now : ℕ) (db : DeliveryDb) (d : Delivery)
      → find delivery_key id db.deliveries ≡ some d
      → d.driver_id ≡ some driver_id
      → d.status ≡ assigned
      → find delivery_key id (pickup driver_id id (begin db now)).1.durable.deliveries
        ≡ some (record d { status = picked_up; picked_up_at = some now })
  unfolding pickup
  pickup-row now db d e mine offered = ground (
    arith,
    find-key delivery_key id d db.deliveries e,
    find-save delivery_key id (record d { status = picked_up; picked_up_at = some now })
        db.deliveries,
  )

  deliver-row :
      (now : ℕ) (db : DeliveryDb) (d : Delivery)
      → find delivery_key id db.deliveries ≡ some d
      → d.driver_id ≡ some driver_id
      → d.status ≡ picked_up
      → find delivery_key id (deliver driver_id id (begin db now)).1.durable.deliveries
        ≡ some (record d { status = delivered; delivered_at = some now })
  unfolding deliver
  deliver-row now db d e mine carried = ground (
    arith,
    find-key delivery_key id d db.deliveries e,
    find-save delivery_key id (record d { status = delivered; delivered_at = some now })
        db.deliveries,
  )

  with_snapshot-key :
      (o : Option OrderSnapshot) (d : Delivery) → (with_snapshot o d).order_id ≡ d.order_id
  with_snapshot-key none d = refl
  with_snapshot-key (some o) d = refl

  -- An admin's reassignment of an order that was delivered, to an active driver, gives that driver one
  -- active delivery more, whatever they carry; they can pick the order up and hand it over again, after
  -- which its row is theirs and tells the second time only.
  pub reassign-redelivers :
      (caller : Identity) (t u v : ℕ) (db : DeliveryDb) (d : Delivery) (driver : Driver)
      → is_admin caller.role ≡ true
      → find delivery_key id db.deliveries ≡ some d
      → d.status ≡ delivered
      → find driver_key driver_id db.drivers ≡ some driver
      → driver.is_active ≡ true
      → let again = (reassign_delivery_for_order caller id driver_id (begin db t)).1.durable in
        let carried = (pickup driver_id id (begin again u)).1.durable in
        let made = (deliver driver_id id (begin carried v)).1.durable in
        (active_for driver_id again.deliveries ≡ active_for driver_id db.deliveries + 1)
        × ((d' : Delivery) × (find delivery_key id made.deliveries ≡ some d')
            × (d'.driver_id ≡ some driver_id)
            × (d'.status ≡ delivered)
            × (d'.delivered_at ≡ some v))
  reassign-redelivers caller t u v db d driver admin e over there active =
      let o = with_snapshot (find snapshot_key id db.snapshots) d in
      let d1 = offered driver_id t o in
      let d2 = record d1 { status = picked_up; picked_up_at = some u } in
      let again = (reassign_delivery_for_order caller id driver_id (begin db t)).1.durable in
      let carried = (pickup driver_id id (begin again u)).1.durable in
      let rows = reassign-row caller t db d driver admin e there active in
      let own : o.order_id ≡ id =
        with_snapshot-key (find snapshot_key id db.snapshots) d
        ∙ find-key delivery_key id d db.deliveries e in
      let one : find delivery_key id again.deliveries ≡ some d1 =
        ap (find delivery_key id) rows
        ∙ ground (arith, own, find-save delivery_key id d1 db.deliveries) in
      let idle : load_of_row driver_id (find delivery_key o.order_id db.deliveries) ≡ 0 =
        ap (λ k. load_of_row driver_id (find delivery_key k db.deliveries)) own
        ∙ ap (load_of_row driver_id) e
        ∙ ground (arith, over) in
      let busy : load_of driver_id d1 ≡ 1 = ground arith in
      let two = pickup-row u again d1 one refl refl in
      (
        ap (active_for driver_id) rows
            ∙ omega (arith, idle, busy, active_for-save driver_id d1 db.deliveries),
        (
          record d2 { status = delivered; delivered_at = some v },
          deliver-row v carried d2 two refl refl,
          refl,
          refl,
          refl,
        ),
      )
