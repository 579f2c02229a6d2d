-- ===== src/Delivery/Histories/Rows.antt =====
-- What happens to one delivery over a history.
use food_delivery_system.Base.{
  ℕ, ◌≡◌, refl, Bool, true, false, not, Option, none, some, List, [], ◌∷◌, begin, find, find-save,
  All, All-find, All-save, ◌==◌, ◌&&◌, arith, Bool-cases, inl, inr,
}
use food_delivery_system.Delivery.Models.{
  DeliveryStatus, unassigned, assigned, accepted, picked_up, delivered, Delivery, DeliveryDb,
  delivery_key,
}
use food_delivery_system.Delivery.Drivers.{is_active_status}
use food_delivery_system.Delivery.Requests.{Request, is_override, serve, serve_all}
use food_delivery_system.Delivery.Steps.{
  Step, accepts, releases, passes_on, picks_up, hands_over, reassigns, Birth, waits, starts, Change,
  same, born, stepped,
}
use food_delivery_system.Delivery.Histories.{serve-Change}

Step-active :
    {rows : List Delivery} {d v : Delivery} → Step false rows d v → is_active_status d.status ≡ true
Step-active (accepts at s) = ground arith
Step-active (releases s) = ground arith
Step-active (passes_on driver at s other free) = ground arith
Step-active (picks_up at s) = ground arith
Step-active (hands_over at s) = ground arith
Step-active (reassigns driver at o b) = cc

Change-idle :
    {rows rows' : List Delivery} (k : ℕ) (d : Delivery)
    → Change false rows rows'
    → find delivery_key k rows ≡ some d
    → is_active_status d.status ≡ false
    → find delivery_key k rows' ≡ some d
Change-idle k d same e idle = e
Change-idle {rows} k d (born id v free key b) e idle =
    ground (arith, e, free, find-save delivery_key k v rows)
Change-idle {rows} k d (stepped x v found key s) e idle = elim (Bool-cases (x.order_id == k)) [
  | inl own ↦ ground (arith, own, e, found, Step-active s)
  | inr other ↦ ground (arith, other, e, find-save delivery_key k v rows)
]

-- Over any history without a reassignment, a delivery that was made and one that waits for a driver stay
-- as they are: a delivery that found no driver is never offered to anyone again.
pub serve_all-idle :
    (history : List (ℕ × Request)) (db : DeliveryDb) (k : ℕ) (d : Delivery)
    → All (λ x. is_override x.1 ≡ false) history
    → find delivery_key k db.deliveries ≡ some d
    → is_active_status d.status ≡ false
    → find delivery_key k (serve_all history db).deliveries ≡ some d
unfolding serve_all
serve_all-idle [] db k d ordinary e idle = e
serve_all-idle ((now, r) ∷ rest) db k d ordinary e idle =
    serve_all-idle rest (serve r (begin db now)).durable k d ordinary.1
      (Change-idle k d (rw ordinary.0 at (serve-Change r db now)) e idle) idle

abbrev pub is_set : Option ℕ → Bool
is_set none = false
is_set (some _) = true

abbrev pub is_unassigned : DeliveryStatus → Bool
is_unassigned unassigned = true
is_unassigned _ = false

-- The stamps that a status calls for.
abbrev pub is_stamped : Delivery → Bool
is_stamped d = elim d.status [
  | unassigned ↦ true
  | assigned ↦ is_set d.assigned_at
  | accepted ↦ is_set d.assigned_at && is_set d.accepted_at
  | picked_up ↦ is_set d.assigned_at && is_set d.picked_up_at
  | delivered ↦ is_set d.assigned_at && is_set d.picked_up_at && is_set d.delivered_at
]

-- A delivery has a driver exactly if it is not unassigned, and the stamps of its status.
pub record IsSound (d : Delivery) : Type 0 where
  pub driven : is_set d.driver_id ≡ not (is_unassigned d.status)
  pub stamped : is_stamped d ≡ true

Step-IsSound :
    {b : Bool} {rows : List Delivery} {d v : Delivery} → Step b rows d v → IsSound d → IsSound v
Step-IsSound (accepts at s) h = record {
  driven = ground (arith, h.driven);
  stamped = ground (arith, h.stamped);
}
Step-IsSound (releases s) h = record { driven = refl; stamped = refl }
Step-IsSound (passes_on driver at s other free) h = record { driven = refl; stamped = refl }
Step-IsSound (picks_up at s) h = record {
  driven = ground (arith, h.driven);
  stamped = ground (arith, h.stamped);
}
Step-IsSound (hands_over at s) h = record {
  driven = ground (arith, h.driven);
  stamped = ground (arith, h.stamped);
}
Step-IsSound (reassigns driver at none b) h = record { driven = refl; stamped = refl }
Step-IsSound (reassigns driver at (some o) b) h = record { driven = refl; stamped = refl }

Birth-IsSound : {rows : List Delivery} {k : ℕ} {v : Delivery} → Birth rows k v → IsSound v
Birth-IsSound (waits none) = record { driven = refl; stamped = refl }
Birth-IsSound (waits (some o)) = record { driven = refl; stamped = refl }
Birth-IsSound (starts none driver at free) = record { driven = refl; stamped = refl }
Birth-IsSound (starts (some o) driver at free) = record { driven = refl; stamped = refl }

Change-IsSound :
    {b : Bool} {rows rows' : List Delivery}
    → Change b rows rows'
    → All IsSound rows
    → All IsSound rows'
Change-IsSound same h = h
Change-IsSound {b} {rows} (born k v e i birth) h =
    All-save delivery_key IsSound v rows h (Birth-IsSound birth)
Change-IsSound {b} {rows} (stepped d v e i s) h =
    All-save delivery_key IsSound v rows h
      (Step-IsSound s (All-find delivery_key IsSound d.order_id d rows h e))

-- Every history, reassignments among it, keeps every delivery sound: it has a driver exactly if it is not
-- unassigned, and it carries the times that its status calls for.
pub serve_all-IsSound :
    (history : List (ℕ × Request)) (db : DeliveryDb)
    → All IsSound db.deliveries
    → All IsSound (serve_all history db).deliveries
unfolding serve_all
serve_all-IsSound [] db h = h
serve_all-IsSound ((now, r) ∷ rest) db h =
    serve_all-IsSound rest (serve r (begin db now)).durable
      (Change-IsSound (serve-Change r db now) h)
