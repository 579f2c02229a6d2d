-- ===== src/Users/Accounts.antt =====
-- services/users/app/service.py, the accounts. Hashing is an argument: `hash salt password`, with the salt that
-- bcrypt draws, and `verify password hash`.
use food_delivery_system.Base.{
  ℕ, suc, Bool, true, false, not, Option, none, some, List, [], ◌∷◌, ◌+◌, pure, raise, raise_if,
  or_raise, when, ◌>>=◌, ◌>>◌, find, any, String, ◌==◌, if◌then◌else◌, ◌&&◌, ◌||◌,
}
use food_delivery_system.Shared.Identity.{Role, is_admin}
use food_delivery_system.Shared.OutboxEvent.{Topic}
use food_delivery_system.Users.Models.{
  ApprovalStatus, pending, approved, rejected, User, RestaurantSignup, user_changed,
  contact_changed, registration, Error, email_registered, phone_registered, admin_exists,
  email_or_phone_registered, invalid_credentials, user_key, email_key,
}
use food_delivery_system.Users.Store.{
  Act, get_db, set_db, commit_db, rollback_db, put_user, record_event,
}

pub record Hashing : Type 0 where
  pub hash : ℕ → ℕ → ℕ
  pub verify : ℕ → ℕ → Bool

pub record UserRegister : Type 0 where
  pub email : ℕ
  pub phone : ℕ
  pub first_name : String
  pub last_name : String
  pub password : ℕ
  pub role : Role
  pub restaurant : RestaurantSignup

abbrev pub is_restaurant : Role → Bool
is_restaurant Role.restaurant = true
is_restaurant _ = false

-- `select(User).where(or_(…)).first()`
unfoldable pub first_where : (User → Bool) → List User → Option User
first_where p [] = none
first_where p (u ∷ us) = if p u then some u else first_where p us

abbrev pub is_active_user : Option User → Bool
is_active_user none = false
is_active_user (some u) = u.is_active

-- `publish_user`, on two topics
abbrev pub publish_user : User → Act (Unit {0})
publish_user u = do
  record_event Topic.user_events (some u.id)
      (user_changed u.id u.role u.first_name u.last_name u.is_active)
  record_event Topic.user_contact_events (some u.id) (contact_changed u.id u.email u.phone)

abbrev pub publish_restaurant_registration : User → RestaurantSignup → Act (Unit {0})
publish_restaurant_registration u details =
    record_event Topic.restaurant_registrations (some u.id) (registration u.id details)

-- Which of the two texts an existing account has.
abbrev pub refuse_taken : ℕ → Option User → Act (Unit {0})
refuse_taken email none = pure tt
refuse_taken email (some u) =
    raise (if u.email == email then email_registered else phone_registered)

abbrev pub new_user : ℕ → ℕ → UserRegister → User
new_user id hashed d = record {
  id = id;
  email = d.email;
  phone = d.phone;
  first_name = d.first_name;
  last_name = d.last_name;
  hashed_password = hashed;
  role = d.role;
  is_active = not (is_restaurant d.role);
  password_reset_required = false;
  approval_status = if is_restaurant d.role then some pending else none;
  session_generation = 0;
}

-- `session.add` and `flush`, which gives the row its id.
abbrev pub insert_user : (ℕ → User) → Act User
insert_user row = do
  id ← get_db (λ db. db.next_user_id)
  set_db (λ db. record db { next_user_id = suc id })
  put_user (row id)
  pure (row id)

-- The commit, or the rollback if a registration that ran beside this one took the email or phone.
abbrev pub commit_unless : Bool → Error → Act (Unit {0})
commit_unless false e = commit_db
commit_unless true e = do rollback_db; raise e

unfoldable pub register_user : Hashing → ℕ → Bool → UserRegister → Act User
register_user h salt lost_race d = do
  existing ← get_db (λ db. first_where (λ u. u.email == d.email || u.phone == d.phone) db.users)
  refuse_taken d.email existing
  u ← insert_user (λ id. new_user id (h.hash salt d.password) d)
  publish_user u
  when (is_restaurant d.role) (publish_restaurant_registration u d.restaurant)
  commit_unless lost_race email_or_phone_registered
  pure u

abbrev pub is_approved : ApprovalStatus → Bool
is_approved approved = true
is_approved _ = false

-- An operator's decision on an account.
abbrev pub decided : ApprovalStatus → User → User
decided status u = record u {
  approval_status = some status;
  is_active = if is_approved status then true else u.is_active;
}

unfoldable pub is_same_status : ApprovalStatus → Option ApprovalStatus → Bool
is_same_status pending (some pending) = true
is_same_status approved (some approved) = true
is_same_status rejected (some rejected) = true
is_same_status _ _ = false

abbrev pub is_unchanged : ApprovalStatus → User → Bool
is_unchanged status u =
    is_same_status status u.approval_status && (u.is_active || not (is_approved status))

abbrev pub store_and_publish : User → Act (Unit {0})
store_and_publish u = do put_user u; publish_user u; commit_db

abbrev pub decide : ApprovalStatus → User → Act Bool
decide status u = do
  when (not (is_unchanged status u)) (store_and_publish (decided status u))
  pure (not (is_unchanged status u))

abbrev pub is_owner : Option User → Bool
is_owner none = false
is_owner (some u) = is_restaurant u.role

abbrev pub decide_found : ApprovalStatus → Option User → Act Bool
decide_found status none = pure false
decide_found status (some u) = decide status u

unfoldable pub apply_restaurant_decision : ℕ → ApprovalStatus → Act Bool
apply_restaurant_decision owner_id status = do
  found ← get_db (λ db. find user_key owner_id db.users)
  decide_found status (if is_owner found then found else none)

-- The first administrator, whose email stands in the phone column as well.
abbrev pub new_admin : ℕ → ℕ → ℕ → User
new_admin id hashed email = record {
  id = id;
  email = email;
  phone = email;
  first_name = "Admin";
  last_name = "User";
  hashed_password = hashed;
  role = Role.admin;
  is_active = true;
  password_reset_required = true;
  approval_status = none;
  session_generation = 0;
}

unfoldable pub bootstrap_admin : Hashing → ℕ → Bool → ℕ → ℕ → Act User
bootstrap_admin h salt lost_race email password = do
  exists ← get_db (λ db. any (λ u. is_admin u.role) db.users)
  raise_if exists admin_exists
  taken ← get_db (λ db. any (λ u. u.email == email || u.phone == email) db.users)
  raise_if taken email_registered
  u ← insert_user (λ id. new_admin id (h.hash salt password) email)
  publish_user u
  commit_unless lost_race email_registered
  pure u

-- A new password, which ends every session.
abbrev pub with_password : ℕ → User → User
with_password hashed u = record u {
  hashed_password = hashed;
  session_generation = u.session_generation + 1;
}

abbrev pub is_password_of : Hashing → ℕ → Option User → Bool
is_password_of h password none = false
is_password_of h password (some u) = h.verify password u.hashed_password

-- An admin who has yet to set a password of their own.
abbrev pub awaits_reset : Option User → Bool
awaits_reset none = false
awaits_reset (some u) = is_admin u.role && u.password_reset_required

unfoldable pub reset_admin_password : Hashing → ℕ → ℕ → ℕ → ℕ → Act User
reset_admin_password h salt email old_password new_password = do
  found ← get_db (λ db. find email_key email db.users)
  raise_if (not (awaits_reset found && is_password_of h old_password found)) invalid_credentials
  u ← or_raise found invalid_credentials
  let changed = record (with_password (h.hash salt new_password) u) {
    password_reset_required = false;
  }
  put_user changed
  commit_db
  pure changed
