-- ===== src/Restaurants/Models.antt =====
-- services/restaurants/app/models.py: the tables of the restaurants service. Prices are whole paise, times of
-- day whole minutes since midnight, days from Monday as 0. A coordinate is its bit pattern, a radius whole
-- metres. The texts that only the listings show (cuisine, phone and the like) are left out.
use food_delivery_system.Base.{
  ℕ, Bool, Option, some, List, ◌∷◌, String, Action, Session, modify, save,
}
use food_delivery_system.Shared.OutboxEvent.{OutboxEvent, Topic, outbox_event}

pub data ApprovalStatus : Type 0 where
  pending approved rejected : ApprovalStatus

pub record Restaurant : Type 0 where
  pub id : ℕ
  pub owner_id : ℕ
  pub name : String
  pub city : String
  pub is_open : Bool
  pub approval_status : ApprovalStatus
  pub rejection_reason : Option String
  pub min_order_amount : ℕ
  pub latitude : Option ℕ
  pub longitude : Option ℕ
  pub delivery_radius : Option ℕ

pub record OpeningHour : Type 0 where
  pub restaurant_id : ℕ
  pub day_of_week : ℕ
  pub opens_at : Option ℕ
  pub closes_at : Option ℕ
  pub is_closed : Bool

pub record MenuItem : Type 0 where
  pub id : ℕ
  pub restaurant_id : ℕ
  pub category_id : ℕ
  pub name : String
  pub price : ℕ
  pub is_available : Bool
  pub stock_quantity : Option ℕ

pub record MenuCategory : Type 0 where
  pub id : ℕ
  pub restaurant_id : ℕ
  pub name : String
  pub sort_order : ℕ

pub record Review : Type 0 where
  pub id : ℕ
  pub order_id : ℕ
  pub customer_id : ℕ
  pub restaurant_id : ℕ
  pub rating : ℕ
  pub reviewer_name : String
  pub comment : Option String
  pub owner_reply : Option String
  pub owner_replied_at : Option ℕ
  pub updated_at : Option ℕ

pub record OrderSnapshot : Type 0 where
  pub order_id : ℕ
  pub customer_id : ℕ
  pub restaurant_id : ℕ
  pub status : String
  pub customer_name : String

-- `publish_restaurant`, `alert_admin_of_submission` to the operator's mailbox, and the two notifications
-- of reviews, to a user about an order.
pub data Payload : Type 0 where
  restaurant_changed : ℕ → ℕ → String → Bool → ApprovalStatus → Payload
  restaurant_pending : String → String → String → Payload
  review_created review_replied : ℕ → ℕ → Payload

pub record RestaurantsDb : Type 0 where
  pub restaurants : List Restaurant
  pub next_restaurant_id : ℕ
  pub opening_hours : List OpeningHour
  pub menu_categories : List MenuCategory
  pub next_category_id : ℕ
  pub menu_items : List MenuItem
  pub next_item_id : ℕ
  pub reviews : List Review
  pub next_review_id : ℕ
  pub snapshots : List OrderSnapshot
  pub outbox : List (OutboxEvent Payload)

-- No handler of this service calls another system.
pub data Call : Type 0 where
  no_call : Call

pub data Error : Type 0 where
  restaurant_not_found category_not_found item_not_found order_not_found review_not_found : Error
  not_manager not_the_customer not_the_author not_author_or_admin : Error
  already_managing category_holds_items not_delivered already_reviewed : Error

abbrev pub Act : Type 0 → Type 0
Act A = Action Error (Session RestaurantsDb Call) A

abbrev pub restaurant_key : Restaurant → ℕ
restaurant_key r = r.id

abbrev pub hour_key : OpeningHour → ℕ
hour_key h = h.day_of_week

abbrev pub item_key : MenuItem → ℕ
item_key i = i.id

abbrev pub category_key : MenuCategory → ℕ
category_key c = c.id

abbrev pub review_key : Review → ℕ
review_key r = r.id

abbrev pub snapshot_key : OrderSnapshot → ℕ
snapshot_key o = o.order_id

abbrev pub owner_key : Restaurant → ℕ
owner_key r = r.owner_id

abbrev pub reviewed_order : Review → ℕ
reviewed_order r = r.order_id

-- `outbox.record_event`
abbrev pub record_event : Topic → ℕ → Payload → Act (Unit {0})
record_event topic key payload =
    modify (λ db. record db { outbox = outbox_event topic (some key) payload ∷ db.outbox })

abbrev pub put_restaurant : Restaurant → Act (Unit {0})
put_restaurant r = modify (λ db. record db { restaurants = save restaurant_key r db.restaurants })
