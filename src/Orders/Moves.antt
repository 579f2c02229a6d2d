-- ===== src/Orders/Moves.antt =====
-- The abstract step of the order lifecycle: a request changes nothing, or moves one order by one
-- legal transition, with its audit row and the payment commands that the move calls for.
use mathlib.Core.Path.{subst}
use food_delivery_system.Base.{
  ◌∙◌, ℕ, ◌≤◌, ◌≡◌, refl, sym, true, false, some, List, [], ◌∷◌, inl, inr, find, save, find-save,
  find-key, IsKeyed, save-IsKeyed, ◌==◌, if◌then◌else◌, ◌||◌, arith, Bool-cases,
}
use food_delivery_system.Orders.Models.{
  OrderStatus, Order, OrderStatusEvent, PaymentAction, settle, refund, OrdersDb,
}
use food_delivery_system.Orders.StateMachine.{allowed}
use food_delivery_system.Orders.Store.{order_key}
use food_delivery_system.Orders.Actions.{is_delivered, is_full}
use food_delivery_system.Orders.Invariant.{
  latest_status, IsTrail, requested, is_completed, is_closed, due_refund, due_amount,
  OrderIsConsistent, IsUnused, IsConsistent,
}

pub record Move (db db' : OrdersDb) : Type 0 where
  pub before : Order
  pub after : Order
  pub event : OrderStatusEvent
  pub found : find order_key before.id db.orders ≡ some before
  pub same_id : after.id ≡ before.id
  pub same_total : after.total ≡ before.total
  pub legal : allowed before.status after.status ≡ true
  pub about : event.order_id ≡ before.id
  pub from : event.from_status ≡ some before.status
  pub to : event.to_status ≡ after.status
  pub orders : db'.orders ≡ save order_key after db.orders
  pub events : db'.status_events ≡ event ∷ db.status_events
  pub next : db'.next_order_id ≡ db.next_order_id
  pub others :
      (k : ℕ) (a : PaymentAction)
      → (before.id == k) ≡ false
      → requested k a db'.outbox ≡ requested k a db.outbox
  -- The refund that is requested is the refund that the order shows.
  pub refunds :
      is_full before.refund_status ≡ false
      → requested before.id refund db.outbox ≡ []
      → requested before.id refund db'.outbox ≡ due_refund after
  pub amount :
      is_full before.refund_status ≡ false
      → before.refund_amount ≡ 0
      → after.refund_amount ≡ due_amount after
  pub closed :
      is_full before.refund_status ≡ false
      → is_full after.refund_status ≡ true
      → is_closed after.status ≡ true
  -- Settlement is requested by the delivery, and by nothing else.
  pub settles : requested before.id settle db'.outbox ≡ (
      if is_delivered after.status
      then after.total ∷ requested before.id settle db.outbox
      else requested before.id settle db.outbox)

pub data Change (db db' : OrdersDb) : Type 0 where
  same : db' ≡ db → Change db db'
  moved : Move db db' → Change db db'

-- No order leaves a closed status, and only completion follows delivery.
allowed-is_closed : (s t : OrderStatus) → allowed s t ≡ true → is_closed s ≡ false
unfolding allowed
allowed-is_closed s t h = ground arith

allowed-delivered :
    (s t : OrderStatus) → allowed s t ≡ true → (is_delivered s || is_completed s) ≡ is_completed t
unfolding allowed
allowed-delivered s t h = ground arith

-- The newest status of an order after one more row.
pub latest-cons :
    (k : ℕ) (e : OrderStatusEvent) (es : List OrderStatusEvent)
    → latest_status k (e ∷ es) ≡ (if e.order_id == k then some e.to_status else latest_status k es)
unfolding latest_status
latest-cons k e es = refl

module _ {db db' : OrdersDb} (m : Move db db') (c : IsConsistent db) where
  open m use {before, after, event}

  old : OrderIsConsistent db before
  old = c.each before.id before m.found

  not_refunded : is_full before.refund_status ≡ false
  not_refunded = ground (arith, old.closed, allowed-is_closed before.status after.status m.legal)

  events-latest :
      (k : ℕ)
      → latest_status k db'.status_events
        ≡ (if before.id == k then some after.status else latest_status k db.status_events)
  events-latest k = rw m.events (rw latest-cons (rw (m.about, m.to) refl))

  orders-find :
      (k : ℕ)
      → find order_key k db'.orders
        ≡ (if before.id == k then some after else find order_key k db.orders)
  orders-find k = rw m.orders (rw find-save (rw m.same_id refl))

  after-consistent : OrderIsConsistent db' after
  after-consistent = record {
    audited = ground (arith, events-latest after.id, m.same_id);
    refunds = ground (arith, m.same_id, m.refunds not_refunded, old.refunds, not_refunded);
    settles = ground (
      arith,
      m.same_id,
      m.same_total,
      m.settles,
      old.settles,
      allowed-delivered before.status after.status m.legal,
    );
    amount = ground (arith, m.amount not_refunded, old.amount, not_refunded);
    closed = m.closed not_refunded;
  }

  other-consistent :
      (o : Order) → (before.id == o.id) ≡ false → OrderIsConsistent db o → OrderIsConsistent db' o
  other-consistent o ne h = record {
    audited = ground (arith, events-latest o.id, h.audited);
    refunds = m.others o.id refund ne ∙ h.refunds;
    settles = m.others o.id settle ne ∙ h.settles;
    amount = h.amount;
    closed = h.closed;
  }

  each-consistent :
      (k : ℕ) (o : Order) → find order_key k db'.orders ≡ some o → OrderIsConsistent db' o
  each-consistent k o e = elim (Bool-cases (before.id == k)) [
    | inl it ↦
        let q : after ≡ o = ground (arith, orders-find k) in
        subst (OrderIsConsistent db') q after-consistent
    | inr ne ↦
        let q : find order_key k db.orders ≡ some o = ground (arith, orders-find k) in
        other-consistent o (rw (find-key order_key k o db.orders q) ne) (c.each k o q)
  ]

  IsKeyed-kept : IsKeyed order_key db'.orders
  IsKeyed-kept =
      subst (IsKeyed order_key) (sym m.orders) (save-IsKeyed order_key after db.orders c.keyed)

  IsTrail-kept : IsTrail db'.status_events
  IsTrail-kept =
      subst IsTrail (sym m.events) (rw (m.from, m.about, m.to) (sym old.audited, m.legal, c.trail))

  IsUnused-kept : (k : ℕ) → db'.next_order_id ≤ k → IsUnused db' k
  IsUnused-kept k h =
      let u = c.unused k (rw m.next at h) in
      let ne : (before.id == k) ≡ false = ground (arith, m.found, u.no_order) in
      record {
        no_order = ground (arith, orders-find k, u.no_order);
        no_event = ground (arith, events-latest k, u.no_event);
        no_refund = m.others k refund ne ∙ u.no_refund;
        no_settle = m.others k settle ne ∙ u.no_settle;
      }

-- One step keeps the books in order.
pub Move-IsConsistent : {db db' : OrdersDb} → Move db db' → IsConsistent db → IsConsistent db'
Move-IsConsistent m c = record {
  each = each-consistent m c;
  keyed = IsKeyed-kept m c;
  trail = IsTrail-kept m c;
  unused = IsUnused-kept m c;
}

pub Change-IsConsistent : {db db' : OrdersDb} → Change db db' → IsConsistent db → IsConsistent db'
Change-IsConsistent (same e) c = subst IsConsistent (sym e) c
Change-IsConsistent (moved m) c = Move-IsConsistent m c
