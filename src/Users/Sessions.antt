-- ===== src/Users/Sessions.antt =====
-- services/users/app/service.py, the sessions: tokens, the blocklist, and passwords. The ids of a pair of tokens
-- and the digest of a reset token are drawn outside.
use food_delivery_system.Base.{
  ℕ, not, Option, none, some, ◌+◌, pure, raise_if, or_raise, ◌>>=◌, ◌>>◌, find, ◌==◌, if◌then◌else◌,
}
use food_delivery_system.Users.Models.{
  pending, approved, rejected, User, Error, invalid_credentials, awaiting_approval,
  application_rejected, wrong_password, invalid_reset_token, invalid_token, invalid_token_type,
  token_revoked, inactive_user, session_expired, user_key, email_key,
}
use food_delivery_system.Users.Redis.{
  blocklist_jti, is_revoked, issue_single_use, consume_single_use,
}
use food_delivery_system.Users.Jwt.{
  Claims, Jwt, access, refresh, is_refresh, is_access, jwt_expiration_seconds,
  jwt_refresh_expiration_seconds, password_reset_ttl_seconds,
}
use food_delivery_system.Users.Accounts.{Hashing, is_active_user, with_password, is_password_of}
use food_delivery_system.Users.Store.{
  Act, get_db, commit_db, read_clock, get_redis, set_redis, put_user,
}

-- `_issue_tokens`, with the ids that `uuid4` draws
pub record TokenIds : Type 0 where
  pub access_jti : ℕ
  pub refresh_jti : ℕ

pub record TokenResponse : Type 0 where
  pub access_token : Claims
  pub refresh_token : Claims

unfoldable pub issue_tokens : TokenIds → ℕ → User → TokenResponse
issue_tokens ids now u = record {
  access_token = record {
    sub = u.id;
    role = u.role;
    gen = u.session_generation;
    token_type = access;
    jti = ids.access_jti;
    exp = now + jwt_expiration_seconds;
  };
  refresh_token = record {
    sub = u.id;
    role = u.role;
    gen = u.session_generation;
    token_type = refresh;
    jti = ids.refresh_jti;
    exp = now + jwt_refresh_expiration_seconds;
  };
}

-- `_inactive_reason`
abbrev pub inactive_reason : User → Error
inactive_reason u = elim u.approval_status [
  | none ↦ invalid_credentials
  | some status ↦ elim status [
    | pending ↦ awaiting_approval
    | rejected ↦ application_rejected
    | approved ↦ invalid_credentials
  ]
]

unfoldable pub login : Hashing → TokenIds → ℕ → ℕ → Act TokenResponse
login h ids email password = do
  found ← get_db (λ db. find email_key email db.users)
  raise_if (not (is_password_of h password found)) invalid_credentials
  u ← or_raise found invalid_credentials
  raise_if (not u.is_active) (inactive_reason u)
  now ← read_clock
  pure (issue_tokens ids now u)

-- `verify_token`
abbrev pub verify_token : Jwt → ℕ → Act Claims
verify_token jwt token = do now ← read_clock; or_raise (jwt.decode now token) invalid_token

abbrev pub raise_if_revoked : ℕ → Act (Unit {0})
raise_if_revoked jti = do
  now ← read_clock
  revoked ← get_redis (is_revoked now jti)
  raise_if revoked token_revoked

-- An active account whose session generation is the claimed one.
abbrev pub current_holder : ℕ → ℕ → Act User
current_holder id gen = do
  found ← get_db (λ db. find user_key id db.users)
  raise_if (not (is_active_user found)) inactive_user
  u ← or_raise found inactive_user
  raise_if (not (gen == u.session_generation)) session_expired
  pure u

-- `_blocklist`
abbrev pub blocklist : ℕ → ℕ → Act (Unit {0})
blocklist jti ttl_seconds = do now ← read_clock; set_redis (blocklist_jti now jti ttl_seconds)

-- The exchange of claims that were verified.
abbrev pub exchange : TokenIds → Claims → Act TokenResponse
exchange ids c = do
  raise_if (not (is_refresh c.token_type)) invalid_token_type
  raise_if_revoked c.jti
  u ← current_holder c.sub c.gen
  blocklist c.jti jwt_refresh_expiration_seconds
  now ← read_clock
  pure (issue_tokens ids now u)

unfoldable pub refresh_tokens : Jwt → TokenIds → ℕ → Act TokenResponse
refresh_tokens jwt ids token = do c ← verify_token jwt token; exchange ids c

-- `_revoke`: a token that is no longer valid is ignored.
abbrev pub revoke_claims : Option Claims → ℕ → Act (Unit {0})
revoke_claims none ttl_seconds = pure tt
revoke_claims (some c) ttl_seconds = blocklist c.jti ttl_seconds

abbrev pub revoke : Jwt → ℕ → ℕ → Act (Unit {0})
revoke jwt token ttl_seconds = do now ← read_clock; revoke_claims (jwt.decode now token) ttl_seconds

abbrev pub revoke_if_given : Jwt → Option ℕ → Act (Unit {0})
revoke_if_given jwt none = pure tt
revoke_if_given jwt (some token) = revoke jwt token jwt_expiration_seconds

unfoldable pub logout : Jwt → ℕ → Option ℕ → Act (Unit {0})
logout jwt refresh_token access_token = do
  revoke jwt refresh_token jwt_refresh_expiration_seconds
  revoke_if_given jwt access_token

abbrev pub admit : Claims → Act User
admit c = do
  raise_if (not (is_access c.token_type)) invalid_token_type
  raise_if_revoked c.jti
  current_holder c.sub c.gen

-- `current_user` of dependencies.py, with the identity that `JWTAuth.verify` reads from an access token.
unfoldable pub current_user : Jwt → ℕ → Act User
current_user jwt token = do c ← verify_token jwt token; admit c

-- The token that `token_urlsafe` draws, by its digest, for an active account with the email.
abbrev pub issue_reset : ℕ → Option User → Act (Option ℕ)
issue_reset digest none = pure none
issue_reset digest (some u) = do
  now ← read_clock
  set_redis (issue_single_use now digest u.id password_reset_ttl_seconds)
  pure (some digest)

abbrev pub if_active : Option User → Option User
if_active found = if is_active_user found then found else none

unfoldable pub request_password_reset : ℕ → ℕ → Act (Option ℕ)
request_password_reset digest email = do
  found ← get_db (λ db. find email_key email db.users)
  issue_reset digest (if_active found)

unfoldable pub reset_password : Hashing → ℕ → ℕ → ℕ → Act (Unit {0})
reset_password h salt digest password = do
  now ← read_clock
  redeemed ← get_redis (λ r. (consume_single_use now digest r).0)
  set_redis (λ r. (consume_single_use now digest r).1)
  id ← or_raise redeemed invalid_reset_token
  found ← get_db (λ db. find user_key id db.users)
  u ← or_raise found invalid_reset_token
  put_user (with_password (h.hash salt password) u)
  commit_db

unfoldable pub change_password : Hashing → ℕ → TokenIds → User → ℕ → ℕ → Act TokenResponse
change_password h salt ids u current password = do
  raise_if (not (h.verify current u.hashed_password)) wrong_password
  put_user (with_password (h.hash salt password) u)
  commit_db
  now ← read_clock
  pure (issue_tokens ids now (with_password (h.hash salt password) u))
