-- ===== src/Payments/Gaps.antt =====
-- Where the payments service does not do what its comments say.
use food_delivery_system.Base.{
  ℕ, ◌≡◌, true, false, some, [], ◌∷◌, begin, find, find-save, find-key, arith,
}
use food_delivery_system.Payments.Models.{
  refunded, succeeded, Payment, OrderSnapshot, PaymentsDb, Call, payment_key, IdempotencyKey,
}
use food_delivery_system.Payments.Providers.{PaymentProvider}
use food_delivery_system.Payments.Service.{
  refund_payment, resume_card_payment, authorized_if, awaits_card, is_refundable,
}
use food_delivery_system.Payments.Webhook.{
  Event, payment_intent_succeeded, apply_event, find_by_reference,
}

-- A success event for a payment that was refunded already makes it succeeded again, so that a refund
-- command after it sends the order's money back once more.
pub apply_event-revives :
    (event : Event) (o : OrderSnapshot) (provider : PaymentProvider) (p : Payment) (db : PaymentsDb)
    (t u : ℕ)
    → event.type ≡ payment_intent_succeeded
    → find_by_reference event.object_id db.payments ≡ some p
    → p.order_id ≡ o.order_id
    → p.status ≡ refunded
    → let revived = (apply_event event (begin db t)).1.durable in
      (refund_payment o provider (begin revived u)).1.sent
      ≡ Call.refund provider.name o.order_id p.provider_ref o.total ∷ []
unfolding apply_event refund_payment
apply_event-revives event o provider p db t u success named own gone =
    ground (arith, find-save payment_key o.order_id (record p { status = succeeded }) db.payments)

-- A resumed card payment whose order's copy still says PAYMENT_PENDING is authorised or failed
-- afterwards, whatever it was: a payment that had succeeded, or was refunded, no longer has.
pub resume_card_payment-regresses :
    (o : OrderSnapshot) (provider : PaymentProvider) (p : Payment) (db : PaymentsDb) (now : ℕ)
    → find payment_key o.order_id db.payments ≡ some p
    → awaits_card o p ≡ true
    → let answer = provider.authorize o.total (IdempotencyKey.resume o.order_id) o.order_id in
      find payment_key o.order_id (resume_card_payment o provider (begin db now)).1.durable.payments
      ≡ some (record p { status = authorized_if answer.ok; provider_ref = answer.reference })
unfolding resume_card_payment
resume_card_payment-regresses o provider p db now e h = ground (
  arith,
  find-key payment_key o.order_id p db.payments e,
  find-save payment_key o.order_id
      (record p {
        status =
            authorized_if
              (provider.authorize o.total (IdempotencyKey.resume o.order_id) o.order_id).ok;
        provider_ref =
            (provider.authorize o.total (IdempotencyKey.resume o.order_id) o.order_id).reference;
      })
      db.payments,
)

-- A refund that the provider refuses marks the payment refunded like one that it makes.
pub refund_payment-unchecked :
    (o : OrderSnapshot) (provider : PaymentProvider) (p : Payment) (db : PaymentsDb) (now : ℕ)
    → find payment_key o.order_id db.payments ≡ some p
    → is_refundable p.status ≡ true
    → (provider.refund p.provider_ref o.total).ok ≡ false
    → find payment_key o.order_id (refund_payment o provider (begin db now)).1.durable.payments
      ≡ some (record p { status = refunded })
unfolding refund_payment
refund_payment-unchecked o provider p db now e taken refused = ground (
  arith,
  find-key payment_key o.order_id p db.payments e,
  find-save payment_key o.order_id (record p { status = refunded }) db.payments,
)
