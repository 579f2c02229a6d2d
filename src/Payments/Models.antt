-- ===== src/Payments/Models.antt =====
-- services/payments/app/models.py: the tables of the payments service, and its errors. Amounts are
-- whole paise. `idempotency_key` is a text made of the order's id; the model keeps its parts.
use food_delivery_system.Base.{ℕ, Option, List, String, Action, Session}
use food_delivery_system.Shared.OutboxEvent.{OutboxEvent}

pub data Provider : Type 0 where
  cod card : Provider

pub data PaymentTxStatus : Type 0 where
  pending authorized succeeded failed refunded : PaymentTxStatus

-- "order-{id}", "order-{id}-retry" and "order-{id}-resume"
pub data IdempotencyKey : Type 0 where
  first retry resume : ℕ → IdempotencyKey

-- The stand-in's "pi_{key}", or a reference that Stripe gave.
pub data Reference : Type 0 where
  pi : IdempotencyKey → Reference
  stripe : String → Reference

pub record Payment : Type 0 where
  pub order_id : ℕ
  pub provider : Provider
  pub amount : ℕ
  pub status : PaymentTxStatus
  pub provider_ref : Option Reference
  pub idempotency_key : Option IdempotencyKey

-- The statuses of an order that this service tells apart; `other` is any other text.
pub data SnapshotStatus : Type 0 where
  payment_pending payment_success : SnapshotStatus
  other : String → SnapshotStatus

pub record OrderSnapshot : Type 0 where
  pub order_id : ℕ
  pub customer_id : ℕ
  pub status : SnapshotStatus
  pub total : ℕ
  pub payment_method : Provider

-- The one payload of this service: money has moved.
pub record PaymentSucceeded : Type 0 where
  pub order_id : ℕ
  pub provider : Provider
  pub amount : ℕ

pub record PaymentsDb : Type 0 where
  pub payments : List Payment
  pub snapshots : List OrderSnapshot
  pub outbox : List (OutboxEvent PaymentSucceeded)

-- The calls to a provider, with its name first, for an order's payment.
pub data Call : Type 0 where
  authorize : Provider → ℕ → ℕ → IdempotencyKey → Call
  verify : Provider → ℕ → Option Reference → Call
  refund : Provider → ℕ → Option Reference → ℕ → Call

pub data Error : Type 0 where
  payment_gateway_error : Error
  no_snapshot : ℕ → Error
  integrity_error : Error

abbrev pub Act : Type 0 → Type 0
Act A = Action Error (Session PaymentsDb Call) A

abbrev pub payment_key : Payment → ℕ
payment_key p = p.order_id

abbrev pub snapshot_key : OrderSnapshot → ℕ
snapshot_key o = o.order_id
