-- ===== src/Users/Routes.antt =====
-- services/users/app/router.py, the two routes that do more than call the service; the rate limit in front of them
-- is Shared/RateLimit.
use food_delivery_system.Base.{
  ℕ, Bool, true, false, not, Option, none, some, pure, raise_if, ◌>>=◌, ◌>>◌, find, ◌&&◌,
}
use food_delivery_system.Shared.Identity.{is_admin}
use food_delivery_system.Shared.OutboxEvent.{Topic}
use food_delivery_system.Users.Models.{User, reset_mail, invalid_credentials, email_key}
use food_delivery_system.Users.Accounts.{Hashing, is_password_of}
use food_delivery_system.Users.Sessions.{TokenIds, TokenResponse, login, request_password_reset}
use food_delivery_system.Users.Store.{Act, get_db, commit_db, record_event}

pub data AdminLogin : Type 0 where
  password_reset_required : AdminLogin
  signed_in : TokenResponse → AdminLogin

abbrev pub is_admin_row : Option User → Bool
is_admin_row none = false
is_admin_row (some u) = is_admin u.role

abbrev pub must_reset : Option User → Bool
must_reset none = false
must_reset (some u) = u.password_reset_required

abbrev pub sign_in : Hashing → TokenIds → ℕ → ℕ → Bool → Act AdminLogin
sign_in h ids email password true = pure password_reset_required
sign_in h ids email password false = do tokens ← login h ids email password; pure (signed_in tokens)

unfoldable pub admin_login : Hashing → TokenIds → ℕ → ℕ → Act AdminLogin
admin_login h ids email password = do
  found ← get_db (λ db. find email_key email db.users)
  raise_if (not (is_admin_row found && is_password_of h password found)) invalid_credentials
  sign_in h ids email password (must_reset found)

-- The mail with the link, `notify.send`, whose outbox row has no key.
abbrev pub send_link : ℕ → Option ℕ → Act (Unit {0})
send_link email none = pure tt
send_link email (some token) = do
  record_event Topic.notification_events none (reset_mail email token)
  commit_db

-- In production: the answer is the same text whoever asks.
unfoldable pub forgot_password : ℕ → ℕ → Act (Unit {0})
forgot_password token email = do issued ← request_password_reset token email; send_link email issued
