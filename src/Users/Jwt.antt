-- ===== src/Users/Jwt.antt =====
-- services/users/app/jwt_tokens.py and the reading of claims in shared/identity.py. PyJWT's `decode` at a time
-- is an argument, with what its documentation says of it.
use food_delivery_system.Base.{ℕ, ◌≡◌, ◌<◌, Bool, true, false, Option, some, ◌*◌}
use food_delivery_system.Shared.Identity.{Role}

pub data TokenType : Type 0 where
  access refresh : TokenType

-- The claims that `_issue_tokens` and the two creators write.
pub record Claims : Type 0 where
  pub sub : ℕ
  pub role : Role
  pub gen : ℕ
  pub token_type : TokenType
  pub jti : ℕ
  pub exp : ℕ

-- A token as it is presented is a number here: it is handed to `decode` and nothing else.
pub record Jwt : Type 0 where
  pub decode : ℕ → ℕ → Option Claims

-- A signed text has one set of claims, and is refused from its expiry on.
pub record IsJwt (jwt : Jwt) : Type 0 where
  pub stable :
      (now later token : ℕ) (c d : Claims)
      → jwt.decode now token ≡ some c
      → jwt.decode later token ≡ some d
      → c ≡ d
  pub expires : (now token : ℕ) (c : Claims) → jwt.decode now token ≡ some c → now < c.exp

-- `settings.jwt_expiration_minutes`, `jwt_refresh_expiration_days` and `password_reset_ttl_seconds`
abbrev pub jwt_expiration_seconds : ℕ
jwt_expiration_seconds = 30 * 60

abbrev pub jwt_refresh_expiration_seconds : ℕ
jwt_refresh_expiration_seconds = 7 * 86400

abbrev pub password_reset_ttl_seconds : ℕ
password_reset_ttl_seconds = 900

abbrev pub is_refresh : TokenType → Bool
is_refresh refresh = true
is_refresh _ = false

abbrev pub is_access : TokenType → Bool
is_access access = true
is_access _ = false
