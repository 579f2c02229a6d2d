-- ===== src/Restaurants/Consumer.antt =====
-- services/restaurants/app/consumer.py, the order events. A field that an event does not carry is none.
use text.Mathlib.Text.{◌==◌ as str_eq}
use food_delivery_system.Base.{
  ℕ, Option, none, some, String, pure, gets, modify, commit, ◌>>=◌, ◌>>◌, find, save, or_else,
  if◌then◌else◌,
}
use food_delivery_system.Restaurants.Models.{OrderSnapshot, Act, snapshot_key}

pub record OrderEvent : Type 0 where
  pub order_id : Option ℕ
  pub customer_id : Option ℕ
  pub restaurant_id : Option ℕ
  pub status : Option String
  pub customer_name : Option String

-- `payload.get("status") or old`
abbrev pub or_text : Option String → String → String
or_text none old = old
or_text (some t) old = if str_eq t "" then old else t

-- The snapshot that the event is laid over: the row of the order, or a new one.
abbrev pub base_snapshot : ℕ → Option OrderSnapshot → OrderSnapshot
base_snapshot id none = record {
  order_id = id;
  customer_id = 0;
  restaurant_id = 0;
  status = "";
  customer_name = "";
}
base_snapshot id (some o) = o

abbrev pub overwrite : OrderEvent → OrderSnapshot → OrderSnapshot
overwrite e o = record {
  order_id = o.order_id;
  customer_id = or_else e.customer_id o.customer_id;
  restaurant_id = or_else e.restaurant_id o.restaurant_id;
  status = or_text e.status o.status;
  customer_name = or_else e.customer_name o.customer_name;
}

abbrev pub apply_to : OrderEvent → Option ℕ → Act (Unit {0})
apply_to e none = pure tt
apply_to e (some id) = do
  found ← gets (λ db. find snapshot_key id db.snapshots)
  modify (λ db. record db {
    snapshots = save snapshot_key (overwrite e (base_snapshot id found)) db.snapshots;
  })
  commit

unfoldable pub apply_order_event : OrderEvent → Act (Unit {0})
apply_order_event e = apply_to e e.order_id
