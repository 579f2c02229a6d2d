-- ===== src/Delivery/Histories/Drivers.antt =====
-- One active order per driver, over every history without a reassignment.
use food_delivery_system.Base.{
  ℕ, ◌≤◌, ◌≡◌, false, none, some, List, [], ◌∷◌, begin, find, save, All, arith,
}
use food_delivery_system.Delivery.Models.{
  accepted, picked_up, delivered, Delivery, DeliveryDb, delivery_key,
}
use food_delivery_system.Delivery.Drivers.Choice.{active_for, active_for-save, is_busy-active_for}
use food_delivery_system.Delivery.Assignment.{offered, released, with_snapshot, new_delivery}
use food_delivery_system.Delivery.Requests.{Request, is_override, serve, serve_all}
use food_delivery_system.Delivery.Steps.{
  Step, accepts, releases, passes_on, picks_up, hands_over, reassigns, Birth, waits, starts, Change,
  same, born, stepped,
}
use food_delivery_system.Delivery.Histories.{serve-Change}

-- No driver has two active deliveries.
abbrev pub IsExclusive : List Delivery → Type 0
IsExclusive rows = (id : ℕ) → active_for id rows ≤ 1

-- A row that keeps its driver, or lets go of it, loads nobody more.
Step-load :
    {rows : List Delivery} {d v : Delivery} (id : ℕ)
    → Step false rows d v
    → find delivery_key d.order_id rows ≡ some d
    → IsExclusive rows
    → active_for id (save delivery_key v rows) ≤ 1
Step-load {rows} {d} id (accepts at s) e h = ground (
  arith,
  e,
  h id,
  active_for-save id (record d { status = accepted; accepted_at = some at }) rows,
)
Step-load {rows} {d} id (releases s) e h =
    ground (arith, e, h id, active_for-save id (released d) rows)
Step-load {rows} {d} id (picks_up at s) e h = ground (
  arith,
  e,
  h id,
  active_for-save id (record d { status = picked_up; picked_up_at = some at }) rows,
)
Step-load {rows} {d} id (hands_over at s) e h = ground (
  arith,
  e,
  h id,
  active_for-save id (record d { status = delivered; delivered_at = some at }) rows,
)
Step-load {rows} {d} id (passes_on driver at s other free) e h = ground (
  arith,
  e,
  h id,
  is_busy-active_for driver (save delivery_key (released d) rows) free,
  active_for-save id (released d) rows,
  active_for-save id (offered driver at (released d)) rows,
)
Step-load id (reassigns driver at o b) e h = cc

Birth-load :
    {rows : List Delivery} {v : Delivery} (k id : ℕ)
    → Birth rows k v
    → find delivery_key k rows ≡ none
    → v.order_id ≡ k
    → IsExclusive rows
    → active_for id (save delivery_key v rows) ≤ 1
Birth-load {rows} k id (waits none) e i h =
    ground (arith, e, h id, active_for-save id (new_delivery k) rows)
Birth-load {rows} k id (waits (some o)) e i h =
    ground (arith, e, h id, active_for-save id (with_snapshot (some o) (new_delivery k)) rows)
Birth-load {rows} k id (starts none driver at free) e i h = ground (
  arith,
  e,
  h id,
  is_busy-active_for driver rows free,
  active_for-save id (offered driver at (new_delivery k)) rows,
)
Birth-load {rows} k id (starts (some o) driver at free) e i h = ground (
  arith,
  e,
  h id,
  is_busy-active_for driver rows free,
  active_for-save id (offered driver at (with_snapshot (some o) (new_delivery k))) rows,
)

Change-IsExclusive :
    {rows rows' : List Delivery} → Change false rows rows' → IsExclusive rows → IsExclusive rows'
Change-IsExclusive same h id = h id
Change-IsExclusive (born k v e i b) h id = Birth-load k id b e i h
Change-IsExclusive (stepped d v e i s) h id = Step-load id s e h

-- Over any history without a reassignment, no driver ever has two active deliveries.
pub serve_all-IsExclusive :
    (history : List (ℕ × Request)) (db : DeliveryDb)
    → All (λ x. is_override x.1 ≡ false) history
    → IsExclusive db.deliveries
    → IsExclusive (serve_all history db).deliveries
unfolding serve_all
serve_all-IsExclusive [] db ordinary h = h
serve_all-IsExclusive ((now, r) ∷ rest) db ordinary h =
    serve_all-IsExclusive rest (serve r (begin db now)).durable ordinary.1
      (Change-IsExclusive (rw ordinary.0 at (serve-Change r db now)) h)
