-- ===== src/Orders/Requests/Bounds.antt =====
-- How long the life of an order is, as its audit rows tell it.
use mathlib.Core.Path.{subst}
use food_delivery_system.Base.{
  ℕ, ◌+◌, ◌≤◌, ◌≡◌, ap, ◌∙◌, Option, none, some, List, [], ◌∷◌, String, count_if, ◌==◌, arith,
  Bool-cases, inl, inr,
}
use food_delivery_system.Orders.Models.{OrderStatus, OrderStatusEvent, OrdersDb}
use food_delivery_system.Orders.StateMachine.Graph.{steps_left, allowed-decreases}
use food_delivery_system.Orders.Invariant.{latest_status, IsLegalStep, IsTrail, IsConsistent}
use food_delivery_system.Orders.Requests.{Request, serve_all}
use food_delivery_system.Orders.Requests.Invariance.{serve_all-IsConsistent}

-- The audit rows that an order has.
abbrev pub rows_of : ℕ → List OrderStatusEvent → ℕ
rows_of k es = count_if (λ e. e.order_id == k) es

-- The rows that can still come: the baseline and eight transitions, for an order without any.
rows_left : Option OrderStatus → ℕ
rows_left none = 9
rows_left (some s) = steps_left s

rows_left-step :
    (from : Option OrderStatus) (to : OrderStatus)
    → IsLegalStep from to
    → rows_left (some to) + 1 ≤ rows_left from
unfolding rows_left steps_left
rows_left-step none to h = rw h (omega arith)
rows_left-step (some from) to h = omega (arith, allowed-decreases from to h)

rows_of-le :
    (k : ℕ) (es : List OrderStatusEvent)
    → IsTrail es
    → rows_of k es + rows_left (latest_status k es) ≤ 9
unfolding rows_left latest_status
rows_of-le k [] h = omega arith
rows_of-le k (e ∷ es) h = elim (Bool-cases (e.order_id == k)) [
  | inr other ↦ rw other (rows_of-le k es h.2)
  | inl own ↦
      let same : e.order_id ≡ k = ground (arith, own) in
      let from : e.from_status ≡ latest_status k es = h.0 ∙ ap (λ i. latest_status i es) same in
      let less : rows_left (some e.to_status) + 1 ≤ rows_left (latest_status k es) =
        subst (λ o. rows_left (some e.to_status) + 1 ≤ rows_left o) from
          (rows_left-step e.from_status e.to_status h.1) in
      rw own (omega (arith, less, rows_of-le k es h.2))
]

-- Over any history of requests from a consistent database, no order has more than nine audit rows: the
-- one of its creation and at most eight changes of its status.
pub serve_all-rows_of :
    (sha256 : List (ℕ × ℕ) → String) (strip : String → String) (history : List (ℕ × Request))
    (db : OrdersDb)
    → IsConsistent db
    → (k : ℕ) → rows_of k (serve_all sha256 strip history db).status_events ≤ 9
serve_all-rows_of sha256 strip history db c k =
    let es = (serve_all sha256 strip history db).status_events in
    omega (arith, rows_of-le k es (serve_all-IsConsistent sha256 strip history db c).trail)
