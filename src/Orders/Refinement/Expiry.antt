-- ===== src/Orders/Refinement/Expiry.antt =====
-- The two sweeps of Orders.Lifecycle over stale orders.
use mathlib.Core.Path.{subst}
use food_delivery_system.Base.{
  ℕ, ◌≡◌, sym, Bool, true, Option, none, some, find, save-save, select, find-select, select-IsKeyed,
  select-finds, All-map, length, for_each, begin, Session, ok, if◌then◌else◌, arith,
}
use food_delivery_system.Orders.Models.{
  cancelled, no_refund, full, Actor, payment_not_completed, acceptance_timeout, Order, refund,
  OrdersDb,
}
use food_delivery_system.Orders.StateMachine.{allowed}
use food_delivery_system.Orders.Store.{Call, order_key}
use food_delivery_system.Orders.Actions.{is_payment_pending, is_payment_success}
use food_delivery_system.Orders.Lifecycle.{
  expire_unpaid, expire_unpaid_orders, expire_acceptance, expire_pending_acceptances, with_refund,
  is_unpaid_since, is_unaccepted_since,
}
use food_delivery_system.Orders.Invariant.{IsConsistent}
use food_delivery_system.Orders.Refinement.Sweep.{
  Sweep, IsSweep, swept, after_sweep, IsSwept, loop-IsSwept,
}
use food_delivery_system.Orders.Refinement.Effects.{quiet, commands}

-- An order whose payment did not come in time.
unfoldable pub expired_row : Order → ℕ → Order
expired_row o now = record o {
  status = cancelled;
  refund_status = no_refund;
  refund_amount = 0;
  cancelled_by = some Actor.system;
  cancel_reason = some payment_not_completed;
  updated_at = now;
}

abbrev unpaid_sweep : Sweep
unpaid_sweep = record {
  body = expire_unpaid;
  is_ready = λ o. is_payment_pending o.status;
  row = expired_row;
  reason = payment_not_completed;
  extra = quiet;
}

unpaid_sweep-runs :
    (o : Order) (s : Session OrdersDb Call)
    → is_payment_pending o.status ≡ true
    → expire_unpaid o s ≡ (ok tt, swept unpaid_sweep o s)
unfolding expire_unpaid swept expired_row allowed
unpaid_sweep-runs o s r = ground (
  arith,
  save-save order_key (record o { status = cancelled; updated_at = s.now })
      (unfold expired_row in expired_row o s.now) s.current.orders,
)

unpaid_sweep-IsSweep : IsSweep unpaid_sweep
unfolding expired_row allowed
unpaid_sweep-IsSweep = record { runs = unpaid_sweep-runs; booked = λ o now r. ground arith }

-- An order that the restaurant did not accept in time.
unfoldable pub unaccepted_row : Order → ℕ → Order
unaccepted_row o now =
    record (with_refund full (record o { status = cancelled; cancelled_by = some Actor.system })) {
      updated_at = now;
    }

abbrev acceptance_sweep : Sweep
acceptance_sweep = record {
  body = expire_acceptance;
  is_ready = λ o. is_payment_success o.status;
  row = unaccepted_row;
  reason = acceptance_timeout;
  extra = commands refund;
}

acceptance_sweep-runs :
    (o : Order) (s : Session OrdersDb Call)
    → is_payment_success o.status ≡ true
    → expire_acceptance o s ≡ (ok tt, swept acceptance_sweep o s)
unfolding expire_acceptance swept unaccepted_row allowed
acceptance_sweep-runs o s r = ground (
  arith,
  save-save order_key (record o { status = cancelled; updated_at = s.now }) (unaccepted_row o s.now)
      s.current.orders,
)

acceptance_sweep-IsSweep : IsSweep acceptance_sweep
unfolding unaccepted_row allowed
acceptance_sweep-IsSweep = record { runs = acceptance_sweep-runs; booked = λ o now r. ground arith }

-- What a sweep makes of a stored row.
abbrev pub sweep_row : (Order → Bool) → (Order → Order) → Option Order → Option Order
sweep_row p f none = none
sweep_row p f (some o) = if p o then some (f o) else some o

module _ (w : Sweep) (i : IsSweep w) (p : Order → Bool)
    (ready : (o : Order) → p o ≡ true → w.is_ready o ≡ true) where
  sweep-IsSwept :
      (db : OrdersDb) (now : ℕ)
      → IsConsistent db
      → IsSwept w i
          (select p db.orders)
          (begin db now)
          (for_each w.body (select p db.orders) (begin db now))
  sweep-IsSwept db now c =
      loop-IsSwept w i (select p db.orders) (begin db now)
        (select-IsKeyed order_key p db.orders c.keyed)
        (All-map (λ o e. (e.0, ready o e.1)) (select p db.orders)
          (select-finds order_key p db.orders c.keyed))
        c

  sweep-rows :
      (db : OrdersDb) (now k : ℕ)
      → IsConsistent db
      → find order_key k (for_each w.body (select p db.orders) (begin db now)).1.current.orders
        ≡ sweep_row p (λ o. w.row o now) (find order_key k db.orders)
  unfolding after_sweep
  sweep-rows db now k c =
      ground (arith, (sweep-IsSwept db now c).rows k, find-select order_key p k db.orders c.keyed)

expire_unpaid_orders-ends :
    (now : ℕ) (s : Session OrdersDb Call)
    → (for_each expire_unpaid (select (is_unpaid_since now) s.current.orders) s).0 ≡ ok tt
    → let (r, s') = expire_unpaid_orders now s in
      (r ≡ ok (length (select (is_unpaid_since now) s.current.orders)))
      × (s'.durable
          ≡ (for_each expire_unpaid (select (is_unpaid_since now) s.current.orders) s).1.current)
unfolding expire_unpaid_orders
expire_unpaid_orders-ends now s h = ground arith

expire_pending_acceptances-ends :
    (now : ℕ) (s : Session OrdersDb Call)
    → (for_each expire_acceptance (select (is_unaccepted_since now) s.current.orders) s).0 ≡ ok tt
    → let (r, s') = expire_pending_acceptances now s in
      (r ≡ ok (length (select (is_unaccepted_since now) s.current.orders)))
      × (s'.durable
          ≡ (for_each expire_acceptance
              (select (is_unaccepted_since now) s.current.orders)
              s).1.current)
unfolding expire_pending_acceptances
expire_pending_acceptances-ends now s h = ground arith

unpaid-ready :
    (now : ℕ) (o : Order) → is_unpaid_since now o ≡ true → is_payment_pending o.status ≡ true
unpaid-ready now o h = ground arith

unaccepted-ready :
    (now : ℕ) (o : Order) → is_unaccepted_since now o ≡ true → is_payment_success o.status ≡ true
unaccepted-ready now o h = ground arith

-- On a consistent database the sweep over unpaid orders never fails: it returns how many orders were
-- waiting for payment since before the payment window, cancels exactly those without a refund, leaves
-- every other order as it was, and keeps the database consistent.
pub expire_unpaid_orders-sweeps :
    (now clock : ℕ) (db : OrdersDb)
    → IsConsistent db
    → let (r, s) = expire_unpaid_orders now (begin db clock) in
      (r ≡ ok (length (select (is_unpaid_since now) db.orders)))
      × ((k : ℕ)
          → find order_key k s.durable.orders
            ≡ sweep_row
                (is_unpaid_since now)
                (λ o. expired_row o clock)
                (find order_key k db.orders))
      × IsConsistent s.durable
expire_unpaid_orders-sweeps now clock db c =
    let w =
      sweep-IsSwept unpaid_sweep unpaid_sweep-IsSweep (is_unpaid_since now) (unpaid-ready now) db
        clock c in
    let e = expire_unpaid_orders-ends now (begin db clock) w.ends in
    (
      e.0,
      λ k. rw (e.1) (
          sweep-rows unpaid_sweep unpaid_sweep-IsSweep (is_unpaid_since now) (unpaid-ready now) db
            clock k c),
      subst IsConsistent (sym e.1) w.consistent,
    )

-- On a consistent database the sweep over orders that no restaurant accepted never fails: it returns
-- how many paid orders were waiting since before the acceptance timeout, cancels exactly those with a
-- full refund, leaves every other order as it was, and keeps the database consistent.
pub expire_pending_acceptances-sweeps :
    (now clock : ℕ) (db : OrdersDb)
    → IsConsistent db
    → let (r, s) = expire_pending_acceptances now (begin db clock) in
      (r ≡ ok (length (select (is_unaccepted_since now) db.orders)))
      × ((k : ℕ)
          → find order_key k s.durable.orders
            ≡ sweep_row
                (is_unaccepted_since now)
                (λ o. unaccepted_row o clock)
                (find order_key k db.orders))
      × IsConsistent s.durable
expire_pending_acceptances-sweeps now clock db c =
    let w =
      sweep-IsSwept acceptance_sweep acceptance_sweep-IsSweep (is_unaccepted_since now)
        (unaccepted-ready now) db clock c in
    let e = expire_pending_acceptances-ends now (begin db clock) w.ends in
    (
      e.0,
      λ k. rw (e.1) (
          sweep-rows acceptance_sweep acceptance_sweep-IsSweep (is_unaccepted_since now)
            (unaccepted-ready now) db clock k c),
      subst IsConsistent (sym e.1) w.consistent,
    )
