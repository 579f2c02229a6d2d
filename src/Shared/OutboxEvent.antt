-- ===== src/Shared/OutboxEvent.antt =====
-- The `OutboxEvent` table of each service, over the service's own payloads. `published_at` is null
-- until the relay of shared/outbox.py has sent the row.
use food_delivery_system.Base.{ℕ, Option, none}

pub data Topic : Type 0 where
  order_events payment_commands payment_events delivery_events notification_events restaurant_events
        restaurant_registrations user_events user_contact_events address_events :
      Topic

pub record OutboxEvent (Payload : Type 0) : Type 0 where
  pub topic : Topic
  pub key : Option ℕ
  pub payload : Payload
  pub published_at : Option ℕ
  pub attempts : ℕ

-- The row that `record_event` adds.
abbrev pub outbox_event : {Payload : Type 0} → Topic → Option ℕ → Payload → OutboxEvent Payload
outbox_event topic key payload = record {
  topic = topic;
  key = key;
  payload = payload;
  published_at = none;
  attempts = 0;
}
