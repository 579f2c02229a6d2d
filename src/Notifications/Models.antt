-- ===== src/Notifications/Models.antt =====
-- services/notifications/app/models.py. A table whose ids only order it is a list with the newest row first. Addresses
-- and device tokens are only compared or handed to a provider, so each stands as a number.
use food_delivery_system.Base.{ℕ, Bool, Option, List, ◌∷◌, String, Action, Session, modify}

pub data Channel : Type 0 where
  log push sms email : Channel

pub record Notification : Type 0 where
  pub user_id : ℕ
  pub channel : Channel
  pub type : String
  pub message : String
  pub order_id : Option ℕ
  pub delivered : Bool

pub record NotificationPreference : Type 0 where
  pub user_id : ℕ
  pub email_enabled : Bool
  pub sms_enabled : Bool
  pub push_enabled : Bool

pub record DeviceToken : Type 0 where
  pub user_id : ℕ
  pub token : ℕ

pub record Contact : Type 0 where
  pub user_id : ℕ
  pub email : Option ℕ
  pub phone : Option ℕ

pub record NotificationsDb : Type 0 where
  pub notifications : List Notification
  pub preferences : List NotificationPreference
  pub devices : List DeviceToken
  pub contacts : List Contact

abbrev pub preference_key : NotificationPreference → ℕ
preference_key p = p.user_id

abbrev pub contact_key : Contact → ℕ
contact_key c = c.user_id

-- A message handed to a provider, `senders.dispatch`.
pub record Message : Type 0 where
  pub channel : Channel
  pub to : ℕ
  pub body : String
  pub subject : Option String

-- What a sender raises.
pub data Error : Type 0 where
  sender_error : Error

abbrev pub Act : Type 0 → Type 0
Act A = Action Error (Session NotificationsDb Message) A

abbrev pub add_row : Notification → Act (Unit {0})
add_row row = modify (λ db. record db { notifications = row ∷ db.notifications })
