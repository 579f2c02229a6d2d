-- ===== src/Payments/Deliveries/Refunds.antt =====
-- Money goes back once: the calls to the providers over any sequence of deliveries.
use food_delivery_system.Base.{
  ℕ, suc, ◌+◌, ◌≤◌, Option, none, some, List, [], ◌∷◌, Session, opened, find, save, find-save,
  find-key, ◌==◌, if◌then◌else◌, arith, Bool-cases, Option-cases, inl, inr, or_else,
}
use food_delivery_system.Payments.Models.{
  succeeded, refunded, Payment, OrderSnapshot, PaymentsDb, Call, payment_key, snapshot_key,
  IdempotencyKey,
}
use food_delivery_system.Payments.Providers.{PaymentProvider, provider_for}
use food_delivery_system.Payments.Service.{
  create_payment_for_order, capture_payment, retry_payment, refund_payment, is_failed,
  authorized_if, first_payment,
}
use food_delivery_system.Payments.Consumer.{
  OrderEvent, CommandAction, settle, refund, unknown, overwrite, first_snapshot, is_payable,
  copy_order, carry_out, refund_provider, apply_order_event, apply_payment_command,
}
use food_delivery_system.Payments.Deliveries.{
  Delivery, order_event, command, retried, deliver, deliver_all,
}

-- How often a provider was asked to give an order's money back.
unfoldable pub refunds_to : ℕ → List Call → ℕ
refunds_to k [] = 0
refunds_to k (Call.refund _ id _ _ ∷ cs) =
    if id == k then suc (refunds_to k cs) else refunds_to k cs
refunds_to k (Call.authorize _ _ _ _ ∷ cs) = refunds_to k cs
refunds_to k (Call.verify _ _ _ ∷ cs) = refunds_to k cs

-- How often it may still be asked: a payment that was refunded, never.
abbrev pub refunds_left : Option Payment → ℕ
refunds_left none = 1
refunds_left (some p) = elim p.status [ refunded ↦ 0 | _ ↦ 1 ]

-- What was asked and what may still be asked, for an order.
abbrev pub refund_budget : ℕ → PaymentsDb → List Call → ℕ
refund_budget k db sent = refunds_to k sent + refunds_left (find payment_key k db.payments)

-- A handler that leaves no order's budget higher than it was.
abbrev Spends : PaymentsDb → List Call → Session PaymentsDb Call → Type 0
Spends db sent s = (k : ℕ) → refund_budget k s.durable s.sent ≤ refund_budget k db sent

capture_payment-Spends :
    (id : ℕ) (db : PaymentsDb) (sent : List Call)
    → Spends db sent (capture_payment id (opened db 0 sent)).1
unfolding capture_payment refunds_to
capture_payment-Spends id db sent k = elim (Option-cases (find payment_key id db.payments)) [
  | inl e ↦ ground arith
  | inr (p, e) ↦ ground (
    arith,
    find-key payment_key id p db.payments e,
    find-save payment_key k (record p { status = succeeded }) db.payments,
  )
]

refund_payment-Spends :
    (o : OrderSnapshot) (provider : PaymentProvider) (db : PaymentsDb) (sent : List Call)
    → Spends db sent (refund_payment o provider (opened db 0 sent)).1
unfolding refund_payment refunds_to
refund_payment-Spends o provider db sent k =
    elim (Option-cases (find payment_key o.order_id db.payments)) [
      | inl e ↦ ground arith
      | inr (p, e) ↦ ground (
        arith,
        find-key payment_key o.order_id p db.payments e,
        find-save payment_key k (record p { status = refunded }) db.payments,
      )
    ]

retry_payment-Spends :
    (o : OrderSnapshot) (provider : PaymentProvider) (db : PaymentsDb) (sent : List Call)
    → Spends db sent (retry_payment o provider (opened db 0 sent)).1
unfolding retry_payment refunds_to
retry_payment-Spends o provider db sent k =
    elim (Option-cases (find payment_key o.order_id db.payments)) [
      | inl e ↦ ground arith
      | inr (p, e) ↦ elim (Bool-cases (is_failed p.status)) [
        | inr other ↦ ground arith
        | inl again ↦ ground (
          arith,
          find-key payment_key o.order_id p db.payments e,
          find-save payment_key k
              (record p {
                status =
                    authorized_if
                      (provider.authorize o.total (IdempotencyKey.retry o.order_id) o.order_id).ok;
                provider_ref =
                    (provider.authorize o.total (IdempotencyKey.retry o.order_id)
                      o.order_id).reference;
              })
              db.payments,
        )
      ]
    ]

create_payment_for_order-Spends :
    (o : OrderSnapshot) (provider : PaymentProvider) (db : PaymentsDb) (sent : List Call)
    → Spends db sent (create_payment_for_order o provider none (opened db 0 sent)).1
unfolding create_payment_for_order refunds_to
create_payment_for_order-Spends o provider db sent k =
    elim (Option-cases (find payment_key o.order_id db.payments)) [
      | inr (p, e) ↦ ground arith
      | inl e ↦ ground (
        arith,
        find-save payment_key k
            (first_payment o provider
              (provider.authorize o.total (IdempotencyKey.first o.order_id) o.order_id))
            db.payments,
      )
    ]

module _ (stripe : Option PaymentProvider) where
  copy_order-Spends :
      (e : OrderEvent) (id : ℕ) (db : PaymentsDb) (sent : List Call)
      → Spends db sent (copy_order stripe none e id (opened db 0 sent)).1
  copy_order-Spends e id db sent k =
      let o = overwrite e (or_else (find snapshot_key id db.snapshots) (first_snapshot id e)) in
      elim (Bool-cases (is_payable o.status)) [
        | inr idle ↦ ground arith
        | inl due ↦ ground (
          arith,
          create_payment_for_order-Spends o (provider_for stripe o.payment_method)
              (record db { snapshots = save snapshot_key o db.snapshots }) sent k,
        )
      ]

  carry_out-Spends :
      (a : CommandAction) (o : OrderSnapshot) (db : PaymentsDb) (sent : List Call)
      → Spends db sent (carry_out stripe a o (opened db 0 sent)).1
  carry_out-Spends settle o db sent k = ground (arith, capture_payment-Spends o.order_id db sent k)
  carry_out-Spends refund o db sent k = ground (
    arith,
    refund_payment-Spends o (refund_provider stripe (find payment_key o.order_id db.payments)) db
        sent k,
  )
  carry_out-Spends unknown o db sent k = omega arith

  deliver-Spends :
      (d : Delivery) (db : PaymentsDb) (sent : List Call)
      → Spends db sent (deliver stripe d (opened db 0 sent))
  unfolding deliver apply_order_event apply_payment_command refunds_to find
  deliver-Spends (retried o provider) db sent k = retry_payment-Spends o provider db sent k
  deliver-Spends (order_event e) db sent k = elim (Option-cases e.order_id) [
    | inl missing ↦ rw missing (omega arith)
    | inr (id, named) ↦ rw named (copy_order-Spends e id db sent k)
  ]
  deliver-Spends (command c) db sent k = elim (Option-cases c.order_id) [
    | inl missing ↦ rw missing (omega arith)
    | inr (id, named) ↦ rw named (elim (Option-cases (find snapshot_key id db.snapshots)) [
      | inl early ↦ rw early (omega arith)
      | inr (o, there) ↦ rw there (carry_out-Spends c.action o db sent k)
    ])
  ]

  -- No sequence of deliveries raises what may be given back for an order: the refunds that its
  -- provider was asked for and the one that may still be asked for, which is none once the payment is
  -- refunded, never grow together.
  pub deliver_all-budget :
      (ds : List Delivery) (db : PaymentsDb) (sent : List Call) (k : ℕ)
      → refund_budget k (deliver_all stripe ds db sent).0 (deliver_all stripe ds db sent).1
        ≤ refund_budget k db sent
  unfolding deliver_all
  deliver_all-budget [] db sent k = omega arith
  deliver_all-budget (d ∷ ds) db sent k =
      let s = deliver stripe d (opened db 0 sent) in
      omega (arith, deliver-Spends d db sent k, deliver_all-budget ds s.durable s.sent k)

  refunds_left-le : (p : Option Payment) → refunds_left p ≤ 1
  refunds_left-le p = ground arith

  -- Over any sequence of deliveries, in any order and with any repetitions, the provider is asked at
  -- most once to give an order's money back, and a payment that was refunded before is not given back
  -- again.
  pub refund-once :
      (ds : List Delivery) (db : PaymentsDb) (k : ℕ)
      → refunds_to k (deliver_all stripe ds db []).1 ≤ refunds_left (find payment_key k db.payments)
  unfolding refunds_to
  refund-once ds db k = omega (arith, deliver_all-budget ds db [] k)
