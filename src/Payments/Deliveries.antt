-- ===== src/Payments/Deliveries.antt =====
-- Everything that reaches the payments service over the at-least-once transport, as deliveries in any
-- order and any number, with the retries of failed payments between them.
pub mod Refunds
use food_delivery_system.Base.{
  ℕ, suc, Option, none, List, [], ◌∷◌, Session, opened, ◌==◌, if◌then◌else◌,
}
use food_delivery_system.Payments.Models.{
  PaymentTxStatus, refunded, Payment, OrderSnapshot, PaymentsDb, Call, payment_key,
}
use food_delivery_system.Payments.Providers.{PaymentProvider, provider_for}
use food_delivery_system.Payments.Service.{retry_payment}
use food_delivery_system.Payments.Consumer.{
  OrderEvent, PaymentCommand, apply_order_event, apply_payment_command,
}

pub data Delivery : Type 0 where
  order_event : OrderEvent → Delivery
  command : PaymentCommand → Delivery
  retried : OrderSnapshot → PaymentProvider → Delivery

module _ (stripe : Option PaymentProvider) where
  -- The session in which a delivery ends.
  unfoldable pub deliver : Delivery → Session PaymentsDb Call → Session PaymentsDb Call
  deliver (order_event e) s = (apply_order_event stripe none e s).1
  deliver (command c) s = (apply_payment_command stripe c s).1
  deliver (retried o provider) s = (retry_payment o provider s).1

  -- The database that deliveries leave, and the calls that they made on the way.
  unfoldable pub deliver_all : List Delivery → PaymentsDb → List Call → PaymentsDb × List Call
  deliver_all [] db sent = (db, sent)
  deliver_all (d ∷ ds) db sent =
      let s = deliver d (opened db 0 sent) in deliver_all ds s.durable s.sent
