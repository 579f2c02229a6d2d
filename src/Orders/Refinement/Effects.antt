-- ===== src/Orders/Refinement/Effects.antt =====
-- The writes of one committed handler as a function, and when they are a legal move.
use food_delivery_system.Base.{
  ℕ, ◌≡◌, refl, Bool, true, false, Option, none, some, List, [], ◌∷◌, ◌++◌, find, save, ◌==◌,
  if◌then◌else◌, arith,
}
use food_delivery_system.Shared.OutboxEvent.{Topic, OutboxEvent, outbox_event}
use food_delivery_system.Orders.Models.{
  OrderStatus, Actor, Reason, Order, OrderStatusEvent, OrderPayload, PaymentAction, settle, refund,
  Payload, order_status, payment_command, new_order, OrdersDb,
}
use food_delivery_system.Orders.StateMachine.{allowed}
use food_delivery_system.Orders.Store.{order_key}
use food_delivery_system.Orders.Actions.{is_delivered, is_full, order_payload}
use food_delivery_system.Orders.Invariant.{requested, is_closed, due_refund, due_amount}
use food_delivery_system.Orders.Moves.{Move}

-- One row of `orders`, one audit row, and messages, newest first.
abbrev pub effect : OrdersDb → Order → OrderStatusEvent → List (OutboxEvent Payload) → OrdersDb
effect db after event messages = record db {
  orders = save order_key after db.orders;
  status_events = event ∷ db.status_events;
  outbox = messages ++ db.outbox;
}

-- The audit row of a transition.
abbrev pub transition : Order → OrderStatus → Actor → Option Reason → ℕ → OrderStatusEvent
transition o to actor reason at = record {
  order_id = o.id;
  from_status = some o.status;
  to_status = to;
  actor = actor;
  reason = reason;
  at = at;
}

abbrev pub announcement : ℕ → OrderPayload → OutboxEvent Payload
announcement id p = outbox_event Topic.order_events (some id) (order_status p)

abbrev pub command : Order → PaymentAction → OutboxEvent Payload
command o action =
    outbox_event Topic.payment_commands (some o.id) (payment_command o.id action o.total)

-- What goes out: nothing, the announcement, or besides it a payment command, or a notice to an owner.
pub data Extra : Type 0 where
  silent quiet : Extra
  commands : PaymentAction → Extra
  notice : ℕ → Extra

abbrev pub messages : Extra → Order → OrdersDb → List (OutboxEvent Payload)
messages silent o db = []
messages quiet o db = announcement o.id (order_payload o db) ∷ []
messages (commands a) o db = command o a ∷ announcement o.id (order_payload o db) ∷ []
messages (notice owner) o db =
    outbox_event Topic.notification_events (if o.id == 0 then none else some o.id)
      (new_order owner o.id o.total)
    ∷ announcement o.id (order_payload o db)
    ∷ []

abbrev pub is_refund : Extra → Bool
is_refund (commands refund) = true
is_refund _ = false

abbrev pub is_settle : Extra → Bool
is_settle (commands settle) = true
is_settle _ = false

messages-others :
    (k : ℕ) (a : PaymentAction) (x : Extra) (o : Order) (db : OrdersDb)
    → (o.id == k) ≡ false
    → requested k a (messages x o db ++ db.outbox) ≡ requested k a db.outbox
unfolding requested
messages-others k a x o db ne = ground arith

messages-refunds :
    (x : Extra) (o : Order) (db : OrdersDb)
    → requested o.id refund (messages x o db ++ db.outbox) ≡ (
        if is_refund x
        then o.total ∷ requested o.id refund db.outbox
        else requested o.id refund db.outbox)
unfolding requested
messages-refunds x o db = ground arith

messages-settles :
    (x : Extra) (o : Order) (db : OrdersDb)
    → requested o.id settle (messages x o db ++ db.outbox) ≡ (
        if is_settle x
        then o.total ∷ requested o.id settle db.outbox
        else requested o.id settle db.outbox)
unfolding requested
messages-settles x o db = ground arith

-- When the writes keep the books: the refund is commanded exactly when it is recorded, and the
-- settlement exactly when the order is delivered.
pub record IsBooked (before after : Order) (x : Extra) : Type 0 where
  pub same_id : after.id ≡ before.id
  pub same_total : after.total ≡ before.total
  pub legal : allowed before.status after.status ≡ true
  pub refunds : is_full before.refund_status ≡ false → is_refund x ≡ is_full after.refund_status
  pub settles : is_settle x ≡ is_delivered after.status
  pub amount :
      is_full before.refund_status ≡ false
      → before.refund_amount ≡ 0
      → after.refund_amount ≡ due_amount after
  pub closed :
      is_full before.refund_status ≡ false
      → is_full after.refund_status ≡ true
      → is_closed after.status ≡ true

module _ (db : OrdersDb) (before after : Order) (x : Extra) (b : IsBooked before after x) where
  refunds-kept :
      is_full before.refund_status ≡ false
      → requested before.id refund db.outbox ≡ []
      → requested before.id refund (messages x after db ++ db.outbox) ≡ due_refund after
  refunds-kept h e = ground (arith, b.same_id, b.refunds h, messages-refunds x after db)

  settles-kept : requested before.id settle (messages x after db ++ db.outbox) ≡ (
      if is_delivered after.status
      then after.total ∷ requested before.id settle db.outbox
      else requested before.id settle db.outbox)
  settles-kept = ground (arith, b.same_id, b.settles, messages-settles x after db)

  others-kept :
      (k : ℕ) (a : PaymentAction)
      → (before.id == k) ≡ false
      → requested k a (messages x after db ++ db.outbox) ≡ requested k a db.outbox
  others-kept k a ne = messages-others k a x after db (rw b.same_id ne)

pub effect-Move :
    (db : OrdersDb) (before after : Order) (actor : Actor) (reason : Option Reason) (at : ℕ)
    (x : Extra)
    → find order_key before.id db.orders ≡ some before
    → IsBooked before after x
    → Move db
        (effect db after (transition before after.status actor reason at) (messages x after db))
effect-Move db before after actor reason at x found b = record {
  before = before;
  after = after;
  event = transition before after.status actor reason at;
  found = found;
  same_id = b.same_id;
  same_total = b.same_total;
  legal = b.legal;
  about = refl;
  from = refl;
  to = refl;
  orders = refl;
  events = refl;
  next = refl;
  others = others-kept db before after x b;
  refunds = refunds-kept db before after x b;
  amount = b.amount;
  closed = b.closed;
  settles = settles-kept db before after x b;
}
