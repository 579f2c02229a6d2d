-- ===== src/Users/Models.antt =====
-- services/users/app/models.py: the tables of the users service. An email address, a phone number and a
-- hash are texts that are only compared or handed on, so each stands as a number; the texts shown to people
-- are kept where an event carries them. A coordinate is its bit pattern.
use food_delivery_system.Base.{ℕ, Bool, Option, List, String}
use food_delivery_system.Shared.Identity.{Role}
use food_delivery_system.Shared.OutboxEvent.{OutboxEvent}

pub data ApprovalStatus : Type 0 where
  pending approved rejected : ApprovalStatus

pub record User : Type 0 where
  pub id : ℕ
  pub email : ℕ
  pub phone : ℕ
  pub first_name : String
  pub last_name : String
  pub hashed_password : ℕ
  pub role : Role
  pub is_active : Bool
  pub password_reset_required : Bool
  pub approval_status : Option ApprovalStatus
  pub session_generation : ℕ

pub record Address : Type 0 where
  pub id : ℕ
  pub user_id : ℕ
  pub line1 : ℕ
  pub line2 : Option ℕ
  pub city : ℕ
  pub postal_code : ℕ
  pub is_default : Bool
  pub latitude : Option ℕ
  pub longitude : Option ℕ

pub record Favorite : Type 0 where
  pub id : ℕ
  pub user_id : ℕ
  pub restaurant_id : ℕ

-- The business details of an applicant.
pub record RestaurantSignup : Type 0 where
  pub name : String
  pub city : String

-- `publish_user` on two topics, `publish_restaurant_registration`, `publish_address`, and the mail of a
-- reset link to an address.
pub data Payload : Type 0 where
  user_changed : ℕ → Role → String → String → Bool → Payload
  contact_changed : ℕ → ℕ → ℕ → Payload
  registration : ℕ → RestaurantSignup → Payload
  address_changed : ℕ → ℕ → ℕ → Option ℕ → Option ℕ → Payload
  reset_mail : ℕ → ℕ → Payload

pub record UsersDb : Type 0 where
  pub users : List User
  pub next_user_id : ℕ
  pub addresses : List Address
  pub next_address_id : ℕ
  pub favorites : List Favorite
  pub next_favorite_id : ℕ
  pub outbox : List (OutboxEvent Payload)

pub data Error : Type 0 where
  email_registered phone_registered email_or_phone_registered admin_exists : Error
  invalid_credentials awaiting_approval application_rejected wrong_password invalid_reset_token :
      Error
  invalid_token invalid_token_type token_revoked inactive_user session_expired : Error
  address_not_found favorite_not_found insufficient_permissions : Error

abbrev pub user_key : User → ℕ
user_key u = u.id

abbrev pub email_key : User → ℕ
email_key u = u.email

abbrev pub phone_key : User → ℕ
phone_key u = u.phone

abbrev pub address_key : Address → ℕ
address_key a = a.id

abbrev pub favorite_key : Favorite → ℕ
favorite_key f = f.id
