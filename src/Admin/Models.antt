-- ===== src/Admin/Models.antt =====
-- services/admin/app/models.py. An email and a phone are only shown, so each is a number, `none` for the empty text
-- that a row begins with; money is in cents.
use food_delivery_system.Base.{ℕ, Bool, Option, List, String, Action, Session}

pub record UserRow : Type 0 where
  pub id : ℕ
  pub email : Option ℕ
  pub phone : Option ℕ
  pub first_name : String
  pub last_name : String
  pub role : String
  pub is_active : Bool
  pub created_at : ℕ

pub record RestaurantRow : Type 0 where
  pub id : ℕ
  pub name : String
  pub owner_id : ℕ
  pub created_at : ℕ

pub record OrderRow : Type 0 where
  pub id : ℕ
  pub customer_id : ℕ
  pub restaurant_id : ℕ
  pub status : String
  pub payment_status : String
  pub total : ℕ
  pub created_at : ℕ

pub record AdminDb : Type 0 where
  pub users : List UserRow
  pub restaurants : List RestaurantRow
  pub orders : List OrderRow

abbrev pub user_key : UserRow → ℕ
user_key u = u.id

abbrev pub restaurant_key : RestaurantRow → ℕ
restaurant_key r = r.id

abbrev pub order_key : OrderRow → ℕ
order_key o = o.id

-- This service calls nothing while it consumes, and its handlers refuse nothing.
pub data Nothing : Type 0 where
  nothing : Nothing

abbrev pub Act : Type 0
Act = Action Nothing (Session AdminDb Nothing) (Unit {0})
