-- ===== src/Users/Tests.antt =====
-- The theorems of the users service at a sample of two accounts: a customer with a session, and a restaurant owner
-- who waits for approval.
use food_delivery_system.Base.{
  ℕ, ◌≡◌, ◌<◌, refl, true, false, Option, none, some, List, [], ◌∷◌, find, ltb, ◌==◌, ok, arith,
  if◌then◌else◌,
}
use food_delivery_system.Shared.Identity.{Role}
use food_delivery_system.Users.Models.{pending, rejected, User, Address, UsersDb, user_key}
use food_delivery_system.Users.Redis.{Redis, is_revoked}
use food_delivery_system.Users.Jwt.{Claims, Jwt, IsJwt, access, refresh}
use food_delivery_system.Users.Store.{open_at}
use food_delivery_system.Users.Accounts.{Hashing, UserRegister}
use food_delivery_system.Users.Sessions.{
  TokenIds, issue_tokens, current_user, refresh_tokens, login,
}
use food_delivery_system.Users.Profile.{AddressUpdate, update_address}
use food_delivery_system.Users.Requests.{World, Request, set_password, Stores, serve_all}
use food_delivery_system.Users.Steps.Serve.{grants, IsUnique, serve_all-IsUnique}
use food_delivery_system.Users.Eviction.{set_password-evicts, serve_all-waits}
use food_delivery_system.Users.Rotation.{refresh_tokens-once}
use food_delivery_system.Users.Defaults.{HasOneDefault, update_address-HasOneDefault}

abbrev customer_row : User
customer_row = record {
  id = 1;
  email = 100;
  phone = 200;
  first_name = "Asha";
  last_name = "Rao";
  hashed_password = 7;
  role = Role.customer;
  is_active = true;
  password_reset_required = false;
  approval_status = none;
  session_generation = 0;
}

abbrev owner_row : User
owner_row = record {
  id = 2;
  email = 101;
  phone = 201;
  first_name = "Ravi";
  last_name = "Nair";
  hashed_password = 8;
  role = Role.restaurant;
  is_active = false;
  password_reset_required = false;
  approval_status = some pending;
  session_generation = 0;
}

abbrev home : Address
home = record {
  id = 1;
  user_id = 1;
  line1 = 5;
  line2 = none;
  city = 6;
  postal_code = 7;
  is_default = true;
  latitude = none;
  longitude = none;
}

abbrev work : Address
work = record home { id = 2; line1 = 8; is_default = false }

abbrev sample : UsersDb
sample = record {
  users = customer_row ∷ owner_row ∷ [];
  next_user_id = 3;
  addresses = home ∷ work ∷ [];
  next_address_id = 3;
  favorites = [];
  next_favorite_id = 1;
  outbox = [];
}

abbrev no_keys : Redis
no_keys = record { blocklist = []; resets = [] }

abbrev stores : Stores
stores = record { db = sample; redis = no_keys }

sample-IsUnique : IsUnique sample
unfolding find
sample-IsUnique = record {
  ids = (refl, (refl, tt));
  emails = (refl, (refl, tt));
  phones = (refl, (refl, tt));
  fresh = (omega arith, (omega arith, tt));
}

abbrev access_claims : Claims
access_claims = record {
  sub = 1;
  role = Role.customer;
  gen = 0;
  token_type = access;
  jti = 10;
  exp = 1800;
}

abbrev refresh_claims : Claims
refresh_claims = record {
  sub = 1;
  role = Role.customer;
  gen = 0;
  token_type = refresh;
  jti = 11;
  exp = 604800;
}

-- The token 1 is the access token and 2 the refresh token.
abbrev claims_of : ℕ → Option Claims
claims_of token =
    if token == 1 then some access_claims else if token == 2 then some refresh_claims else none

abbrev unexpired : ℕ → Option Claims → Option Claims
unexpired now none = none
unexpired now (some c) = if ltb now c.exp then some c else none

abbrev small_jwt : Jwt
small_jwt = record { decode = λ now token. unexpired now (claims_of token) }

same_claims :
    (now later : ℕ) (o : Option Claims) (c d : Claims)
    → unexpired now o ≡ some c
    → unexpired later o ≡ some d
    → c ≡ d
same_claims now later none c d e f = cc
same_claims now later (some x) c d e f = ground (arith, e, f)

not_expired : (now : ℕ) (o : Option Claims) (c : Claims) → unexpired now o ≡ some c → now < c.exp
not_expired now none c e = cc
not_expired now (some x) c e = ground (arith, e)

small_jwt-IsJwt : IsJwt small_jwt
small_jwt-IsJwt = record {
  stable = λ now later token. same_claims now later (claims_of token);
  expires = λ now token. not_expired now (claims_of token);
}

-- A hash that is the password itself.
abbrev plain : Hashing
plain = record { hash = λ salt password. password; verify = λ password hashed. password == hashed }

abbrev world : World
world = record { hashing = plain; jwt = small_jwt; geocode = λ line1 city postal_code. none }

abbrev next_ids : TokenIds
next_ids = record { access_jti = 20; refresh_jti = 21 }

abbrev other_ids : TokenIds
other_ids = record { access_jti = 30; refresh_jti = 31 }

abbrev password_change : ℕ × Request
password_change = (100, Request.own 1 (set_password 0 next_ids 7 9))

abbrev log_out : List (ℕ × Request)
log_out = (200, Request.sign_out 2 none) ∷ []

signed_in : (current_user small_jwt 1 (open_at sample no_keys 100)).0 ≡ ok customer_row
unfolding current_user find is_revoked
signed_in = refl

set_password-evicts_example :
    let after = serve_all world (password_change ∷ log_out) stores in
    ¬ ((current_user small_jwt 1 (open_at after.db after.redis 300)).0 ≡ ok customer_row)
    × ¬ (
        (refresh_tokens small_jwt other_ids 1 (open_at after.db after.redis 300)).0
        ≡ ok (issue_tokens other_ids 300 customer_row))
set_password-evicts_example =
    set_password-evicts world stores 100 1 0 next_ids 7 9 customer_row log_out 300 1 access_claims
      other_ids customer_row (issue_tokens other_ids 300 customer_row) sample-IsUnique signed_in
      refl refl refl (omega arith)

abbrev registration : UserRegister
registration = record {
  email = 102;
  phone = 202;
  first_name = "Mina";
  last_name = "Das";
  password = 4;
  role = Role.restaurant;
  restaurant = record { name = "Spice House"; city = "Pune" };
}

abbrev sign_ups : List (ℕ × Request)
sign_ups =
    (50, Request.register 0 false registration)
    ∷ (60, Request.register 0 false registration)
    ∷ password_change
    ∷ []

serve_all-IsUnique_example : IsUnique (serve_all world sign_ups stores).db
serve_all-IsUnique_example = serve_all-IsUnique world sign_ups stores sample-IsUnique

abbrev rejection : List (ℕ × Request)
rejection = (200, Request.decision 2 rejected) ∷ []

owner_there : find user_key 2 sample.users ≡ some owner_row
unfolding find
owner_there = refl

never_approved : grants (Request.decision 2 rejected) 2 ≡ false
unfolding grants
never_approved = refl

serve_all-waits_example :
    let after = serve_all world rejection stores in
    ¬ (
      (login plain other_ids 101 8 (open_at after.db after.redis 300)).0
      ≡ ok (issue_tokens other_ids 300 owner_row))
serve_all-waits_example =
    serve_all-waits world stores 2 owner_row rejection other_ids 8 300
      (issue_tokens other_ids 300 owner_row) sample-IsUnique owner_there refl (never_approved, tt)

exchanged :
    (refresh_tokens small_jwt next_ids 2 (open_at sample no_keys 100)).0
    ≡ ok (issue_tokens next_ids 100 customer_row)
unfolding refresh_tokens find is_revoked
exchanged = refl

refresh_tokens-once_example :
    let after = serve_all world ((100, Request.refresh next_ids 2) ∷ log_out) stores in
    ¬ (
      (refresh_tokens small_jwt other_ids 2 (open_at after.db after.redis 300)).0
      ≡ ok (issue_tokens other_ids 300 customer_row))
refresh_tokens-once_example =
    refresh_tokens-once world stores 100 2 next_ids refresh_claims
      (issue_tokens next_ids 100 customer_row) log_out 300 other_ids
      (issue_tokens other_ids 300 customer_row) small_jwt-IsJwt refl (omega arith) exchanged
      ((omega arith, refl), tt)

abbrev make_default : AddressUpdate
make_default = record {
  line1 = none;
  line2 = none;
  city = none;
  postal_code = none;
  is_default = some true;
}

update_address-HasOneDefault_example :
    HasOneDefault 1
      (update_address world.geocode customer_row 2 make_default
        (open_at sample no_keys 100)).1.session.durable.addresses
update_address-HasOneDefault_example =
    update_address-HasOneDefault world.geocode customer_row 1 100 sample no_keys 2 make_default
      (omega arith)
