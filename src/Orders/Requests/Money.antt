-- ===== src/Orders/Requests/Money.antt =====
-- What the invariant says of money and of the lifecycle, over every history of requests.
use mathlib.Core.Path.{subst}
use food_delivery_system.Base.{
  ℕ, ◌+◌, ◌≤◌, ◌≡◌, refl, sym, true, false, Option, none, some, List, [], ◌∷◌, String, length, find,
  arith, ◌==◌, Bool-cases, inl, inr, ◌||◌,
}
use food_delivery_system.Orders.Models.{
  OrderStatus, created, Order, OrderStatusEvent, refund, settle, OrdersDb,
}
use food_delivery_system.Orders.StateMachine.Graph.{◌⟶◌, ◌⟶*◌, allowed_iff}
use food_delivery_system.Orders.Store.{order_key}
use food_delivery_system.Orders.Actions.{is_delivered, is_full}
use food_delivery_system.Orders.Invariant.{
  latest_status, IsLegalStep, IsTrail, requested, is_completed, is_closed, due_refund, due_settle,
  IsConsistent,
}
use food_delivery_system.Orders.Requests.{Request, serve_all}
use food_delivery_system.Orders.Requests.Invariance.{serve_all-IsConsistent}

then_last : {s t u : OrderStatus} → s ⟶* t → t ⟶ u → s ⟶* u
then_last ◌⟶*◌.here h = ◌⟶*◌.then h ◌⟶*◌.here
then_last (◌⟶*◌.then g p) h = ◌⟶*◌.then g (then_last p h)

closed-delivered :
    (s : OrderStatus) → is_closed s ≡ true → (is_delivered s || is_completed s) ≡ false
closed-delivered s h = ground arith

step-path :
    (from : Option OrderStatus) (to : OrderStatus)
    → ((t : OrderStatus) → from ≡ some t → created ⟶* t)
    → IsLegalStep from to
    → created ⟶* to
step-path none to before h = subst (λ t. created ⟶* t) (sym h) ◌⟶*◌.here
step-path (some t) to before h = then_last (before t refl) ((allowed_iff t to).0 h)

-- One command at most is due.
due-once :
    (o : Order)
    → (is_full o.refund_status ≡ true → is_closed o.status ≡ true)
    → length (due_refund o) + length (due_settle o) ≤ 1
due-once o closed = elim (Bool-cases (is_full o.refund_status)) [
  | inl f ↦ ground (arith, closed f, closed-delivered o.status)
  | inr n ↦ ground arith
]

-- The audit rows of an order are a path from CREATED to its newest status.
trail-path :
    (k : ℕ) (s : OrderStatus) (es : List OrderStatusEvent)
    → IsTrail es
    → latest_status k es ≡ some s
    → created ⟶* s
unfolding latest_status
trail-path k s [] h e = cc
trail-path k s (x ∷ xs) h e = elim (Bool-cases (x.order_id == k)) [
  | inr other ↦ trail-path k s xs h.2 (ground arith)
  | inl own ↦
      let q : x.to_status ≡ s = ground arith in
      subst (λ t. created ⟶* t) q
        (step-path x.from_status x.to_status (λ t r. trail-path k t xs h.2 (ground arith)) h.1)
]

module _ (sha256 : List (ℕ × ℕ) → String) (strip : String → String) (history : List (ℕ × Request))
    (db : OrdersDb) (c : IsConsistent db) where
  abbrev later : OrdersDb
  later = serve_all sha256 strip history db

  -- After any history from a consistent database, an order is paid back or settled at most once, never
  -- both, and for exactly its total: the refund commands in the outbox are one for the total if the
  -- order shows a full refund and none otherwise, the settlement commands are one for the total if it
  -- is delivered or completed and none otherwise, and there is one command at most.
  pub commands-once :
      (k : ℕ) (o : Order)
      → find order_key k later.orders ≡ some o
      → (requested o.id refund later.outbox ≡ due_refund o)
        × (requested o.id settle later.outbox ≡ due_settle o)
        × (length (requested o.id refund later.outbox) + length (requested o.id settle later.outbox)
            ≤ 1)
  commands-once k o e =
      let x = (serve_all-IsConsistent sha256 strip history db c).each k o e in
      (x.refunds, x.settles, rw (x.refunds, x.settles) (due-once o x.closed))

  pub status-reached :
      (k : ℕ) (o : Order)
      → find order_key k later.orders ≡ some o
      → (latest_status o.id later.status_events ≡ some o.status) × (created ⟶* o.status)
  status-reached k o e =
      let all = serve_all-IsConsistent sha256 strip history db c in
      let x = all.each k o e in
      (x.audited, trail-path o.id o.status later.status_events all.trail x.audited)
