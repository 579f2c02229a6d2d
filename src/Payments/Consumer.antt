-- ===== src/Payments/Consumer.antt =====
-- services/payments/app/consumer.py: the copy of what the orders service says, and its commands.
use food_delivery_system.Base.{
  ℕ, Bool, true, false, Option, none, some, or_else, raise, pure, gets, modify, commit, when, ◌>>=◌,
  ◌>>◌, find, save,
}
use food_delivery_system.Payments.Models.{
  Provider, cod, Payment, SnapshotStatus, payment_pending, payment_success, other, OrderSnapshot,
  no_snapshot, Act, snapshot_key,
}
use food_delivery_system.Payments.Providers.{PaymentProvider, provider_for}
use food_delivery_system.Payments.Service.{
  create_payment_for_order, capture_payment, refund_payment, get_payment,
}

-- Every field may be missing; an empty status counts as missing.
pub record OrderEvent : Type 0 where
  pub order_id : Option ℕ
  pub customer_id : Option ℕ
  pub status : Option SnapshotStatus
  pub total : Option ℕ
  pub payment_method : Option Provider

pub data CommandAction : Type 0 where
  settle refund unknown : CommandAction

pub record PaymentCommand : Type 0 where
  pub order_id : Option ℕ
  pub action : CommandAction

-- The row that a first event adds, with the defaults of the table.
abbrev pub first_snapshot : ℕ → OrderEvent → OrderSnapshot
first_snapshot id e = record {
  order_id = id;
  customer_id = or_else e.customer_id 0;
  status = or_else e.status (other "");
  total = 0;
  payment_method = cod;
}

-- Only the fields that the event carries are written.
abbrev pub overwrite : OrderEvent → OrderSnapshot → OrderSnapshot
overwrite e o = record o {
  status = or_else e.status o.status;
  customer_id = or_else e.customer_id o.customer_id;
  total = or_else e.total o.total;
  payment_method = or_else e.payment_method o.payment_method;
}

-- `snapshot.status in PAYABLE_STATUSES`
abbrev pub is_payable : SnapshotStatus → Bool
is_payable payment_pending = true
is_payable payment_success = true
is_payable (other _) = false

-- Stripe is a provider where it is configured; `rival` is a row that another consumer commits meanwhile.
module _ (stripe : Option PaymentProvider) where
  abbrev pub create_for : Option Payment → OrderSnapshot → Act (Unit {0})
  create_for rival o = do
    create_payment_for_order o (provider_for stripe o.payment_method) rival
    pure tt

  abbrev pub copy_order : Option Payment → OrderEvent → ℕ → Act (Unit {0})
  copy_order rival e id = do
    stored ← gets (λ db. find snapshot_key id db.snapshots)
    let o = overwrite e (or_else stored (first_snapshot id e))
    modify (λ db. record db { snapshots = save snapshot_key o db.snapshots })
    commit
    when (is_payable o.status) (create_for rival o)

  abbrev pub for_order : Option ℕ → (ℕ → Act (Unit {0})) → Act (Unit {0})
  for_order none go = pure tt
  for_order (some id) go = go id

  unfoldable pub apply_order_event : Option Payment → OrderEvent → Act (Unit {0})
  apply_order_event rival e = for_order e.order_id (copy_order rival e)

  -- `provider_for(payment.provider)`, of the payment that the refund is about
  abbrev pub refund_provider : Option Payment → PaymentProvider
  refund_provider none = provider_for stripe cod
  refund_provider (some p) = provider_for stripe p.provider

  abbrev pub carry_out : CommandAction → OrderSnapshot → Act (Unit {0})
  carry_out settle o = do capture_payment o.order_id; pure tt
  carry_out refund o = do
    found ← get_payment o.order_id
    refund_payment o (refund_provider found)
    pure tt
  carry_out unknown o = pure tt

  abbrev pub on_snapshot : CommandAction → ℕ → Option OrderSnapshot → Act (Unit {0})
  on_snapshot action id none = raise (no_snapshot id)
  on_snapshot action id (some o) = carry_out action o

  unfoldable pub apply_payment_command : PaymentCommand → Act (Unit {0})
  apply_payment_command c = for_order c.order_id λ id. do
    stored ← gets (λ db. find snapshot_key id db.snapshots)
    on_snapshot c.action id stored
