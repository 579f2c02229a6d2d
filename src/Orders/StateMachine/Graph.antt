-- ===== src/Orders/StateMachine/Graph.antt =====
-- The order lifecycle as a relation, against the table of state_machine.py.
use food_delivery_system.Base.{ℕ, ◌<◌, ◌≡◌, refl, ◌↔◌, true, arith}
use food_delivery_system.Orders.Models.{
  OrderStatus, created, payment_pending, payment_success, restaurant_accepted, preparing,
  ready_for_pickup, out_for_delivery, delivered, completed, cancelled, rejected,
}
use food_delivery_system.Orders.StateMachine.{allowed}

-- A status before the hand-over to the customer, from which an order can be cancelled.
pub data IsOpen : OrderStatus → Type 0 where
  open_created : IsOpen created
  open_pending : IsOpen payment_pending
  open_paid : IsOpen payment_success
  open_accepted : IsOpen restaurant_accepted
  open_preparing : IsOpen preparing
  open_ready : IsOpen ready_for_pickup
  open_on_the_way : IsOpen out_for_delivery

-- What the README's lifecycle says: one way forward from each status, cancellation from every open
-- one, and rejection by the kitchen before it accepts.
infix 40 ◌⟶◌ ◌⟶*◌
pub data ◌⟶◌ : OrderStatus → OrderStatus → Type 0 where
  ask_payment : created ⟶ payment_pending
  paid : payment_pending ⟶ payment_success
  accept : payment_success ⟶ restaurant_accepted
  cook : restaurant_accepted ⟶ preparing
  pack : preparing ⟶ ready_for_pickup
  pick_up : ready_for_pickup ⟶ out_for_delivery
  hand_over : out_for_delivery ⟶ delivered
  complete : delivered ⟶ completed
  refuse : payment_success ⟶ rejected
  cancel : {s : OrderStatus} → IsOpen s → s ⟶ cancelled

ruleset openings = (
  open_created, open_pending, open_paid, open_accepted, open_preparing, open_ready, open_on_the_way,
)

ruleset steps =
    (ask_payment, paid, accept, cook, pack, pick_up, hand_over, complete, refuse, cancel, openings)

pub data ◌⟶*◌ : OrderStatus → OrderStatus → Type 0 where
  here : {s : OrderStatus} → s ⟶* s
  then : {s t u : OrderStatus} → s ⟶ t → t ⟶* u → s ⟶* u

-- What is left to go through at most.
unfoldable pub steps_left : OrderStatus → ℕ
steps_left created = 8
steps_left payment_pending = 7
steps_left payment_success = 6
steps_left restaurant_accepted = 5
steps_left preparing = 4
steps_left ready_for_pickup = 3
steps_left out_for_delivery = 2
steps_left delivered = 1
steps_left completed = 0
steps_left cancelled = 0
steps_left rejected = 0

allowed_sound : (s t : OrderStatus) → allowed s t ≡ true → s ⟶ t
unfolding allowed
allowed_sound s t h = grind (arith, steps)

IsOpen-allowed : {s : OrderStatus} → IsOpen s → allowed s cancelled ≡ true
unfolding allowed
IsOpen-allowed open_created = refl
IsOpen-allowed _ = refl

allowed_complete : {s t : OrderStatus} → s ⟶ t → allowed s t ≡ true
unfolding allowed
allowed_complete (cancel o) = IsOpen-allowed o
allowed_complete _ = refl

-- The table of legal transitions allows exactly the steps of the lifecycle: one way forward from each
-- status, cancellation from every status before the hand-over, and rejection of a paid order that is
-- not accepted yet.
pub allowed_iff : (s t : OrderStatus) → (allowed s t ≡ true) ↔ (s ⟶ t)
allowed_iff s t = (allowed_sound s t, allowed_complete)

IsOpen-steps_left : {s : OrderStatus} → IsOpen s → 0 < steps_left s
unfolding steps_left
IsOpen-steps_left open_created = omega arith
IsOpen-steps_left _ = omega arith

step-decreases : {s t : OrderStatus} → s ⟶ t → steps_left t < steps_left s
unfolding steps_left
step-decreases (cancel o) = IsOpen-steps_left o
step-decreases ask_payment = omega arith
step-decreases _ = omega arith

pub allowed-decreases : (s t : OrderStatus) → allowed s t ≡ true → steps_left t < steps_left s
allowed-decreases s t h = step-decreases (allowed_sound s t h)
