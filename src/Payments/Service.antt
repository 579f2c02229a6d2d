-- ===== src/Payments/Service.antt =====
-- services/payments/app/service.py. The provider of a call is an argument, as it is in the source
-- (`provider or provider_for(…)`).
use food_delivery_system.Base.{
  ℕ, Bool, true, false, not, Option, none, some, ◌∷◌, pure, raise_if, gets, modify, send, commit,
  rollback, ◌>>=◌, ◌>>◌, find, save, ◌&&◌, String,
}
use food_delivery_system.Shared.OutboxEvent.{Topic, outbox_event}
use food_delivery_system.Payments.Models.{
  Provider, cod, card, PaymentTxStatus, pending, authorized, succeeded, failed, refunded,
  IdempotencyKey, first, retry, resume, Reference, Payment, SnapshotStatus, payment_pending,
  OrderSnapshot, Call, payment_gateway_error, Act, payment_key,
}
use food_delivery_system.Payments.Providers.{ProviderStatus, error, ProviderResult, PaymentProvider}

-- A payment with the hosted page of the response that created it, which is never stored.
abbrev pub Answer : Type 0
Answer = Option (Payment × Option String)

abbrev pub get_payment : ℕ → Act (Option Payment)
get_payment order_id = gets (λ db. find payment_key order_id db.payments)

abbrev pub put_payment : Payment → Act (Unit {0})
put_payment p = modify (λ db. record db { payments = save payment_key p db.payments })

abbrev pub is_error : ProviderStatus → Bool
is_error error = true
is_error _ = false

abbrev pub raise_if_provider_failed : ProviderResult → Act (Unit {0})
raise_if_provider_failed r = raise_if (not r.ok && is_error r.status) payment_gateway_error

abbrev pub authorized_if : Bool → PaymentTxStatus
authorized_if true = authorized
authorized_if false = failed

abbrev pub first_payment : OrderSnapshot → PaymentProvider → ProviderResult → Payment
first_payment order provider result = record {
  order_id = order.order_id;
  provider = provider.name;
  amount = order.total;
  status = authorized_if result.ok;
  provider_ref = result.reference;
  idempotency_key = some (first order.order_id);
}

-- The commit of a new row, against the row that another consumer may have committed for the same
-- order since the check: then the insert fails, and the other row is read.
abbrev pub insert_payment : Option Payment → Payment → Option String → Act (Payment × Option String)
insert_payment none payment url = do put_payment payment; commit; pure (payment, url)
insert_payment (some winner) payment url = do
  rollback
  put_payment winner
  commit
  pure (winner, none)

abbrev pub create_new :
    OrderSnapshot → PaymentProvider → Option Payment → Act (Payment × Option String)
create_new order provider rival = do
  send (Call.authorize provider.name order.order_id order.total (first order.order_id))
  let result = provider.authorize order.total (first order.order_id) order.order_id
  insert_payment rival (first_payment order provider result) result.checkout_url

abbrev pub or_create :
    Option Payment → Act (Payment × Option String) → Act (Payment × Option String)
or_create (some existing) new = pure (existing, none)
or_create none new = new

unfoldable pub create_payment_for_order :
    OrderSnapshot → PaymentProvider → Option Payment → Act (Payment × Option String)
create_payment_for_order order provider rival = do
  existing ← get_payment order.order_id
  or_create existing (create_new order provider rival)

-- `status in CAPTURABLE`
abbrev pub is_capturable : PaymentTxStatus → Bool
is_capturable pending = true
is_capturable authorized = true
is_capturable _ = false

abbrev pub with_payment : Option Payment → (Payment → Act Answer) → Act Answer
with_payment none go = pure none
with_payment (some p) go = go p

-- Without the guard the payment comes back as it is.
abbrev pub when_payment : Bool → Payment → Act Answer → Act Answer
when_payment true p go = go
when_payment false p go = pure (some (p, none))

unfoldable pub capture_payment : ℕ → Act Answer
capture_payment order_id = do
  found ← get_payment order_id
  with_payment found λ p. when_payment (is_capturable p.status) p (do
    put_payment (record p { status = succeeded })
    commit
    pure (some (record p { status = succeeded }, none)))

abbrev pub is_failed : PaymentTxStatus → Bool
is_failed failed = true
is_failed _ = false

-- An authorisation renewed, by `retry_payment` and `resume_card_payment`.
abbrev pub reauthorize :
    OrderSnapshot → PaymentProvider → IdempotencyKey → Payment → Act (Payment × ProviderResult)
reauthorize order provider key p = do
  send (Call.authorize provider.name order.order_id order.total key)
  let result = provider.authorize order.total key order.order_id
  let p' = record p { status = authorized_if result.ok; provider_ref = result.reference }
  put_payment p'
  commit
  raise_if_provider_failed result
  pure (p', result)

unfoldable pub retry_payment : OrderSnapshot → PaymentProvider → Act Answer
retry_payment order provider = do
  found ← get_payment order.order_id
  with_payment found λ p. when_payment (is_failed p.status) p (do
    (p', result) ← reauthorize order provider (retry order.order_id) p
    pure (some (p', none)))

abbrev pub is_card : Provider → Bool
is_card card = true
is_card cod = false

abbrev pub is_awaited : SnapshotStatus → Bool
is_awaited payment_pending = true
is_awaited _ = false

-- `payment.provider != "CARD" or order.status != "PAYMENT_PENDING"`, negated
abbrev pub awaits_card : OrderSnapshot → Payment → Bool
awaits_card order p = is_card p.provider && is_awaited order.status

unfoldable pub resume_card_payment : OrderSnapshot → PaymentProvider → Act Answer
resume_card_payment order provider = do
  found ← get_payment order.order_id
  with_payment found λ p. when_payment (awaits_card order p) p (do
    (p', result) ← reauthorize order provider (resume order.order_id) p
    pure (some (p', result.checkout_url)))

-- the "payment-events" message that money has moved
abbrev pub announce_success : Payment → Act (Unit {0})
announce_success p = modify (λ db. record db {
  outbox =
      outbox_event Topic.payment_events (some p.order_id)
        (record { order_id = p.order_id; provider = p.provider; amount = p.amount })
      ∷ db.outbox;
})

-- `if result.reference: payment.provider_ref = result.reference`
abbrev pub or_reference : Option Reference → Option Reference → Option Reference
or_reference none old = old
or_reference (some r) old = some r

unfoldable pub confirm_card_payment : OrderSnapshot → PaymentProvider → Act Answer
confirm_card_payment order provider = do
  found ← get_payment order.order_id
  with_payment found λ p. when_payment (awaits_card order p) p (do
    send (Call.verify provider.name order.order_id p.provider_ref)
    let result = provider.verify p.provider_ref
    let p' = record p {
      status = succeeded;
      provider_ref = or_reference result.reference p.provider_ref;
    }
    when_payment result.ok p
        (do put_payment p'; commit; announce_success p'; commit; pure (some (p', none))))

-- What was taken can be given back: neither REFUNDED, nor PENDING, nor FAILED.
abbrev pub is_refundable : PaymentTxStatus → Bool
is_refundable authorized = true
is_refundable succeeded = true
is_refundable _ = false

-- The provider's answer is not looked at.
unfoldable pub refund_payment : OrderSnapshot → PaymentProvider → Act Answer
refund_payment order provider = do
  found ← get_payment order.order_id
  with_payment found λ p. when_payment (is_refundable p.status) p (do
    send (Call.refund provider.name order.order_id p.provider_ref order.total)
    let result = provider.refund p.provider_ref order.total
    put_payment (record p { status = refunded })
    commit
    pure (some (record p { status = refunded }, none)))
