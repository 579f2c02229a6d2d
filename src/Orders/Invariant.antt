-- ===== src/Orders/Invariant.antt =====
-- What holds of orders_db between two requests: the audit trail agrees with the status, and the
-- payment commands in the outbox agree with what the order says of its money.
use food_delivery_system.Base.{
  ℕ, ◌≤◌, ◌≡◌, Bool, true, false, Option, none, some, List, [], ◌∷◌, find, IsKeyed, ◌==◌,
  if◌then◌else◌, ◌||◌,
}
use food_delivery_system.Shared.OutboxEvent.{OutboxEvent}
use food_delivery_system.Orders.Models.{
  OrderStatus, created, completed, cancelled, rejected, Order, OrderStatusEvent, PaymentAction,
  settle, refund, Payload, payment_command, OrdersDb,
}
use food_delivery_system.Orders.StateMachine.{allowed}
use food_delivery_system.Orders.Store.{order_key}
use food_delivery_system.Orders.Actions.{is_delivered, is_full}

-- The status that the newest audit row of an order leads to.
unfoldable pub latest_status : ℕ → List OrderStatusEvent → Option OrderStatus
latest_status k [] = none
latest_status k (e ∷ es) = if e.order_id == k then some e.to_status else latest_status k es

-- The baseline row leads to CREATED from nothing, and every other row is a legal transition.
abbrev pub IsLegalStep : Option OrderStatus → OrderStatus → Type 0
IsLegalStep none to = to ≡ created
IsLegalStep (some from) to = allowed from to ≡ true

-- Each row starts at the status at which the one before it of the same order ended.
abbrev pub IsTrail : List OrderStatusEvent → Type 0
IsTrail [] = Unit
IsTrail (e ∷ es) =
    (e.from_status ≡ latest_status e.order_id es)
    × IsLegalStep e.from_status e.to_status
    × IsTrail es

-- The amount of a command of this kind for this order.
abbrev pub commanded : ℕ → PaymentAction → Payload → Option ℕ
commanded k refund (payment_command id refund amount) = if id == k then some amount else none
commanded k settle (payment_command id settle amount) = if id == k then some amount else none
commanded _ _ _ = none

abbrev pub add_amount : Option ℕ → List ℕ → List ℕ
add_amount none l = l
add_amount (some a) l = a ∷ l

-- The amounts that the payments service was told to refund, or to settle, for an order.
unfoldable pub requested : ℕ → PaymentAction → List (OutboxEvent Payload) → List ℕ
requested k action [] = []
requested k action (e ∷ es) = add_amount (commanded k action e.payload) (requested k action es)

abbrev pub is_completed : OrderStatus → Bool
is_completed completed = true
is_completed _ = false

abbrev pub is_closed : OrderStatus → Bool
is_closed cancelled = true
is_closed rejected = true
is_closed _ = false

-- What should have been requested for an order: its total, once, or nothing.
abbrev pub due_refund : Order → List ℕ
due_refund o = if is_full o.refund_status then o.total ∷ [] else []

abbrev pub due_settle : Order → List ℕ
due_settle o = if is_delivered o.status || is_completed o.status then o.total ∷ [] else []

abbrev pub due_amount : Order → ℕ
due_amount o = if is_full o.refund_status then o.total else 0

pub record OrderIsConsistent (db : OrdersDb) (o : Order) : Type 0 where
  pub audited : latest_status o.id db.status_events ≡ some o.status
  pub refunds : requested o.id refund db.outbox ≡ due_refund o
  pub settles : requested o.id settle db.outbox ≡ due_settle o
  pub amount : o.refund_amount ≡ due_amount o
  pub closed : is_full o.refund_status ≡ true → is_closed o.status ≡ true

-- An id that the sequence has not given yet is nowhere.
pub record IsUnused (db : OrdersDb) (k : ℕ) : Type 0 where
  pub no_order : find order_key k db.orders ≡ none
  pub no_event : latest_status k db.status_events ≡ none
  pub no_refund : requested k refund db.outbox ≡ []
  pub no_settle : requested k settle db.outbox ≡ []

pub record IsConsistent (db : OrdersDb) : Type 0 where
  pub each : (k : ℕ) (o : Order) → find order_key k db.orders ≡ some o → OrderIsConsistent db o
  pub keyed : IsKeyed order_key db.orders
  pub trail : IsTrail db.status_events
  pub unused : (k : ℕ) → db.next_order_id ≤ k → IsUnused db k
