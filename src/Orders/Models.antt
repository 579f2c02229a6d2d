-- ===== src/Orders/Models.antt =====
-- services/orders/app/models.py: the tables of the orders service. Amounts are whole paise (two
-- decimals in the database), times whole seconds, ids numbers. The ids of lines and of audit rows
-- are left out: the rows stand in a list in the order of their ids, the audit rows newest first.
use food_delivery_system.Base.{ℕ, Option, List, String}
use food_delivery_system.Shared.OutboxEvent.{OutboxEvent}

pub data OrderStatus : Type 0 where
  created payment_pending payment_success restaurant_accepted preparing : OrderStatus
  ready_for_pickup out_for_delivery delivered completed cancelled rejected : OrderStatus

pub data PaymentMethod : Type 0 where
  cod card : PaymentMethod

pub data PaymentStatus : Type 0 where
  pending success failed refunded : PaymentStatus

pub data RefundStatus : Type 0 where
  no_refund full partial_refund : RefundStatus

pub data Actor : Type 0 where
  customer restaurant driver system : Actor

-- The fixed texts that stand in `reason` and `cancel_reason`, and a text from a request.
pub data Reason : Type 0 where
  payment_confirmed cod_to_be_collected payment_not_completed acceptance_timeout : Reason
  given : String → Reason

pub record Order : Type 0 where
  pub id : ℕ
  pub customer_id : ℕ
  pub restaurant_id : ℕ
  pub address_id : ℕ
  pub status : OrderStatus
  pub payment_method : PaymentMethod
  pub payment_status : PaymentStatus
  pub subtotal : ℕ
  pub delivery_fee : ℕ
  pub total : ℕ
  pub refund_status : RefundStatus
  pub refund_amount : ℕ
  pub cancelled_by : Option Actor
  pub cancel_reason : Option Reason
  pub created_at : ℕ
  pub updated_at : ℕ

pub record OrderItem : Type 0 where
  pub order_id : ℕ
  pub menu_item_id : ℕ
  pub name : String
  pub unit_price : ℕ
  pub quantity : ℕ
  pub line_total : ℕ

pub record OrderStatusEvent : Type 0 where
  pub order_id : ℕ
  pub from_status : Option OrderStatus
  pub to_status : OrderStatus
  pub actor : Actor
  pub reason : Option Reason
  pub at : ℕ

-- A coordinate is a float that this service only copies, so it is its bit pattern.
pub record AddressSnapshot : Type 0 where
  pub address_id : ℕ
  pub user_id : ℕ
  pub city : String
  pub latitude : Option ℕ
  pub longitude : Option ℕ

pub record CustomerSnapshot : Type 0 where
  pub user_id : ℕ
  pub display_name : String

pub record RestaurantSnapshot : Type 0 where
  pub restaurant_id : ℕ
  pub owner_id : ℕ
  pub name : String

-- What `_emit_status` publishes.
pub record OrderPayload : Type 0 where
  pub order_id : ℕ
  pub status : OrderStatus
  pub customer_id : ℕ
  pub customer_name : String
  pub restaurant_id : ℕ
  pub restaurant_name : Option String
  pub total : ℕ
  pub payment_method : PaymentMethod
  pub payment_status : PaymentStatus
  pub destination_latitude : Option ℕ
  pub destination_longitude : Option ℕ

pub data PaymentAction : Type 0 where
  settle refund : PaymentAction

-- The payloads that this service records. The one notification is "order.new", to a user, about an
-- order and its total.
pub data Payload : Type 0 where
  order_status : OrderPayload → Payload
  payment_command : ℕ → PaymentAction → ℕ → Payload
  new_order : ℕ → ℕ → ℕ → Payload

-- orders_db. `next_order_id` is the sequence behind the primary key.
pub record OrdersDb : Type 0 where
  pub orders : List Order
  pub next_order_id : ℕ
  pub order_items : List OrderItem
  pub status_events : List OrderStatusEvent
  pub addresses : List AddressSnapshot
  pub customers : List CustomerSnapshot
  pub restaurants : List RestaurantSnapshot
  pub outbox : List (OutboxEvent Payload)
