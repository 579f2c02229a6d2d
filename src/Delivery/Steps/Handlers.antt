-- ===== src/Delivery/Steps/Handlers.antt =====
-- Each handler of the delivery service takes a step.
use mathlib.Core.Path.{subst}
use food_delivery_system.Base.{
  ℕ, ◌≡◌, refl, sym, ap, Bool, true, false, Option, none, some, List, ok, err, Result-cases,
  Session, begin, find, save, find-key, save-save, ◌&&◌, arith, Bool-cases, Option-cases, inl, inr,
}
use food_delivery_system.Shared.Identity.{Identity}
use food_delivery_system.Delivery.Models.{
  accepted, picked_up, delivered, Delivery, OrderSnapshot, Driver, DeliveryDb, Call, Error,
  delivery_key, snapshot_key, driver_key,
}
use food_delivery_system.Delivery.Drivers.{is_driver, Radar, pick_driver, is_active_driver}
use food_delivery_system.Delivery.Drivers.Choice.{pick_driver-IsFree}
use food_delivery_system.Delivery.Assignment.{
  is_assigned, is_pending_pickup, is_picked_up, offered, released, with_snapshot, new_delivery,
  accept_assignment, reject_assignment, pickup, deliver, reassign_delivery_for_order,
  assign_for_order, owned_order,
}
use food_delivery_system.Delivery.Steps.{
  Step, accepts, releases, passes_on, picks_up, hands_over, reassigns, waits, starts, Change, same,
  born, stepped,
}

-- A table that is the same or has one row written.
unchanged : {b : Bool} (rows rows' : List Delivery) → rows' ≡ rows → Change b rows rows'
unchanged rows rows' e = subst (Change _ rows) (sym e) same

written :
    {b : Bool} (rows rows' : List Delivery) (id : ℕ) (d v : Delivery)
    → find delivery_key id rows ≡ some d
    → v.order_id ≡ d.order_id
    → rows' ≡ save delivery_key v rows
    → Step b rows d v
    → Change b rows rows'
written rows rows' id d v e k w s =
    let key : d.order_id ≡ id = find-key delivery_key id d rows e in
    subst (Change _ rows) (sym w) (stepped d v (simp key e) k s)

-- A handler of a driver begins with a delivery of that driver, or ends where it began.
module _ (driver_id id : ℕ) (db : DeliveryDb) (now : ℕ) where
  pub accept_assignment-Change :
      (b : Bool)
      → Change b db.deliveries (accept_assignment driver_id id (begin db now)).1.durable.deliveries
  unfolding accept_assignment
  accept_assignment-Change b = elim (Option-cases (find delivery_key id db.deliveries)) [
    | inl missing ↦ unchanged _ _ (ground arith)
    | inr (d, e) ↦ elim (Bool-cases (is_driver d.driver_id driver_id && is_assigned d.status)) [
      | inr refused ↦ unchanged _ _ (ground arith)
      | inl mine ↦
          written _ _ id d (record d { status = accepted; accepted_at = some now }) e refl
            (ground arith) (accepts now (ground arith))
    ]
  ]

  pub pickup-Change :
      (b : Bool) → Change b db.deliveries (pickup driver_id id (begin db now)).1.durable.deliveries
  unfolding pickup
  pickup-Change b = elim (Option-cases (find delivery_key id db.deliveries)) [
    | inl missing ↦ unchanged _ _ (ground arith)
    | inr (d, e) ↦
        elim (Bool-cases (is_driver d.driver_id driver_id && is_pending_pickup d.status)) [
          | inr refused ↦ unchanged _ _ (ground arith)
          | inl mine ↦
              written _ _ id d (record d { status = picked_up; picked_up_at = some now }) e refl
                (ground arith) (picks_up now (ground arith))
        ]
  ]

  pub deliver-Change :
      (b : Bool) → Change b db.deliveries (deliver driver_id id (begin db now)).1.durable.deliveries
  unfolding deliver
  deliver-Change b = elim (Option-cases (find delivery_key id db.deliveries)) [
    | inl missing ↦ unchanged _ _ (ground arith)
    | inr (d, e) ↦ elim (Bool-cases (is_driver d.driver_id driver_id && is_picked_up d.status)) [
      | inr refused ↦ unchanged _ _ (ground arith)
      | inl mine ↦
          written _ _ id d (record d { status = delivered; delivered_at = some now }) e refl
            (ground arith) (hands_over now (ground arith))
    ]
  ]

-- What is written when the next driver is known.
abbrev passed_on : Option Driver → ℕ → Delivery → Delivery
passed_on none now d = released d
passed_on (some next) now d = offered next.id now (released d)

next_of : Radar → ℕ → ℕ → Delivery → DeliveryDb → Option Driver
next_of radar driver_id id d db =
    pick_driver (record db { deliveries = save delivery_key (released d) db.deliveries }) radar
      (find snapshot_key id db.snapshots) (some driver_id)

module _ (radar : Radar) (driver_id id : ℕ) (db : DeliveryDb) (now : ℕ) where
  reject_assignment-writes :
      (d : Delivery)
      → find delivery_key id db.deliveries ≡ some d
      → (is_driver d.driver_id driver_id && is_pending_pickup d.status) ≡ true
      → (reject_assignment radar driver_id id (begin db now)).1.durable.deliveries
        ≡ save delivery_key (passed_on (next_of radar driver_id id d db) now d) db.deliveries
  unfolding reject_assignment next_of
  reject_assignment-writes d e mine = elim (Option-cases (next_of radar driver_id id d db)) [
    | inl nobody ↦
        ground (arith, nobody, save-save delivery_key (released d) (released d) db.deliveries)
    | inr (next, picked) ↦ ground (
      arith,
      picked,
      save-save delivery_key (released d) (offered next.id now (released d)) db.deliveries,
    )
  ]

  passed_on-Step :
      (b : Bool) (d : Delivery) (next : Option Driver)
      → next_of radar driver_id id d db ≡ next
      → (is_driver d.driver_id driver_id && is_pending_pickup d.status) ≡ true
      → Step b db.deliveries d (passed_on next now d)
  unfolding next_of
  passed_on-Step b d none e mine = releases (ground arith)
  passed_on-Step b d (some next) e mine =
      let free =
        pick_driver-IsFree (record db { deliveries = save delivery_key (released d) db.deliveries })
          radar (find snapshot_key id db.snapshots) (some driver_id) next e in
      passes_on next.id now (ground arith) (ground (arith, free.other)) (free.idle)

  passed_on-key :
      (d : Delivery) (next : Option Driver) → (passed_on next now d).order_id ≡ d.order_id
  passed_on-key d none = refl
  passed_on-key d (some next) = refl

  pub reject_assignment-Change :
      (b : Bool)
      → Change b db.deliveries
          (reject_assignment radar driver_id id (begin db now)).1.durable.deliveries
  reject_assignment-Change b = elim (Option-cases (find delivery_key id db.deliveries)) [
    | inl missing ↦ unchanged _ _ (unfold reject_assignment in ground arith)
    | inr (d, e) ↦
        elim (Bool-cases (is_driver d.driver_id driver_id && is_pending_pickup d.status)) [
          | inr refused ↦ unchanged _ _ (unfold reject_assignment in ground arith)
          | inl mine ↦
              let next = next_of radar driver_id id d db in
              written _ _ id d (passed_on next now d) e (passed_on-key d next)
                (reject_assignment-writes d e mine) (passed_on-Step b d next refl mine)
        ]
  ]

with_snapshot-key :
    (o : Option OrderSnapshot) (d : Delivery) → (with_snapshot o d).order_id ≡ d.order_id
with_snapshot-key none d = refl
with_snapshot-key (some o) d = refl

module _ (caller : Identity) (id new_driver_id : ℕ) (db : DeliveryDb) (now : ℕ) where
  abbrev override : Session DeliveryDb Call
  override = (reassign_delivery_for_order caller id new_driver_id (begin db now)).1

  owned_order-reads : (owned_order caller id (begin db now)).1 ≡ begin db now
  owned_order-reads = ground arith

  reassign-refused :
      (e : Error) → (owned_order caller id (begin db now)).0 ≡ err e → override ≡ begin db now
  unfolding reassign_delivery_for_order
  reassign-refused e h = ground (arith, owned_order-reads)

  reassign-inactive :
      is_active_driver (find driver_key new_driver_id db.drivers) ≡ false → override ≡ begin db now
  unfolding reassign_delivery_for_order
  reassign-inactive h = ground (arith, owned_order-reads)

  reassign-writes :
      (d : Delivery) (u : Unit {0})
      → find delivery_key id db.deliveries ≡ some d
      → (owned_order caller id (begin db now)).0 ≡ ok u
      → is_active_driver (find driver_key new_driver_id db.drivers) ≡ true
      → override.durable.deliveries
        ≡ save delivery_key
            (offered new_driver_id now (with_snapshot (find snapshot_key id db.snapshots) d))
            db.deliveries
  unfolding reassign_delivery_for_order
  reassign-writes d u e may active = ground (arith, owned_order-reads)

  pub reassign_delivery_for_order-Change : Change true db.deliveries override.durable.deliveries
  reassign_delivery_for_order-Change = elim (Option-cases (find delivery_key id db.deliveries)) [
    | inl missing ↦ unchanged _ _ (unfold reassign_delivery_for_order in ground arith)
    | inr (d, e) ↦ elim (Result-cases (owned_order caller id (begin db now)).0) [
      | inr (x, h) ↦ unchanged _ _ (ap (λ s. s.durable.deliveries) (reassign-refused x h))
      | inl (u, may) ↦
          elim (Bool-cases (is_active_driver (find driver_key new_driver_id db.drivers))) [
            | inr gone ↦ unchanged _ _ (ap (λ s. s.durable.deliveries) (reassign-inactive gone))
            | inl active ↦
                let o = find snapshot_key id db.snapshots in
                written _ _ id d (offered new_driver_id now (with_snapshot o d)) e
                  (with_snapshot-key o d) (reassign-writes d u e may active)
                  (reassigns new_driver_id now o refl)
          ]
    ]
  ]

module _ (radar : Radar) (id : ℕ) (db : DeliveryDb) (now : ℕ)
    (free : find delivery_key id db.deliveries ≡ none) where
  abbrev fresh : Delivery
  fresh = with_snapshot (find snapshot_key id db.snapshots) (new_delivery id)

  assign-waits :
      pick_driver db radar (find snapshot_key id db.snapshots) none ≡ none
      → (assign_for_order radar none id (begin db now)).1.durable.deliveries
        ≡ save delivery_key fresh db.deliveries
  unfolding assign_for_order
  assign-waits h = ground arith

  assign-starts :
      (driver : Driver)
      → pick_driver db radar (find snapshot_key id db.snapshots) none ≡ some driver
      → (assign_for_order radar none id (begin db now)).1.durable.deliveries
        ≡ save delivery_key (offered driver.id now fresh) db.deliveries
  unfolding assign_for_order
  assign-starts driver h = ground arith

  assign-born :
      (b : Bool)
      → Change b db.deliveries (assign_for_order radar none id (begin db now)).1.durable.deliveries
  assign-born b =
      let o = find snapshot_key id db.snapshots in
      elim (Option-cases (pick_driver db radar o none)) [
        | inl nobody ↦
            subst (Change b db.deliveries) (sym (assign-waits nobody))
              (born id fresh free (with_snapshot-key o (new_delivery id)) (waits o))
        | inr (driver, picked) ↦
            subst (Change b db.deliveries) (sym (assign-starts driver picked)) (
              born id (offered driver.id now fresh) free (with_snapshot-key o (new_delivery id))
                (starts o driver.id now (pick_driver-IsFree db radar o none driver picked).idle))
      ]

pub assign_for_order-Change :
    (b : Bool) (radar : Radar) (id : ℕ) (db : DeliveryDb) (now : ℕ)
    → Change b db.deliveries (assign_for_order radar none id (begin db now)).1.durable.deliveries
assign_for_order-Change b radar id db now =
    elim (Option-cases (find delivery_key id db.deliveries)) [
      | inr (d, e) ↦ unchanged _ _ (unfold assign_for_order in ground arith)
      | inl free ↦ assign-born radar id db now free b
    ]
