-- ===== src/Users/Steps/Tokens.antt =====
-- The handlers of tokens leave the accounts alone: what they write stands in Redis.
use food_delivery_system.Base.{
  ℕ, refl, Bool, Option, none, some, find, arith, Bool-cases, Option-cases, inl, inr, after_read,
}
use food_delivery_system.Users.Models.{UsersDb, user_key, email_key}
use food_delivery_system.Users.Redis.{Redis, is_revoked}
use food_delivery_system.Users.Jwt.{Claims, Jwt, is_refresh}
use food_delivery_system.Users.Store.{open_at}
use food_delivery_system.Users.Sessions.{
  TokenIds, verify_token, exchange, refresh_tokens, logout, request_password_reset,
}
use food_delivery_system.Users.Routes.{forgot_password}
use food_delivery_system.Users.Steps.{Change, untouched}

module _ (granted : ℕ → Bool) (db : UsersDb) (redis : Redis) (now : ℕ) where
  exchange-Change :
      (ids : TokenIds) (c : Claims)
      → Change granted db (exchange ids c (open_at db redis now)).1.session.durable
  exchange-Change ids c = elim (Bool-cases (is_refresh c.token_type)) [
    | inr other ↦ untouched (ground (arith, other)) (ground (arith, other))
    | inl right ↦ elim (Bool-cases (is_revoked now c.jti redis)) [
      | inl revoked ↦ untouched (ground (arith, right, revoked)) (ground (arith, right, revoked))
      | inr live ↦ elim (Option-cases (find user_key c.sub db.users)) [
        | inl gone ↦
            untouched (ground (arith, right, live, gone)) (ground (arith, right, live, gone))
        | inr (u, found) ↦
            untouched (ground (arith, right, live, found)) (ground (arith, right, live, found))
      ]
    ]
  ]

  pub refresh_tokens-Change :
      (jwt : Jwt) (ids : TokenIds) (token : ℕ)
      → Change granted db (refresh_tokens jwt ids token (open_at db redis now)).1.session.durable
  unfolding refresh_tokens
  refresh_tokens-Change jwt ids token =
      after_read (λ s. Change granted db s.session.durable) (verify_token jwt token) (exchange ids)
        (open_at db redis now)
        (elim (Option-cases (jwt.decode now token)) [
          | inl bad ↦ ground (arith, bad)
          | inr (c, good) ↦ ground (arith, good)
        ])
        (untouched refl refl) (λ c _. exchange-Change ids c)

  pub logout-Change :
      (jwt : Jwt) (token : ℕ) (access : Option ℕ)
      → Change granted db (logout jwt token access (open_at db redis now)).1.session.durable
  unfolding logout
  logout-Change jwt token none = elim (Option-cases (jwt.decode now token)) [
    | inl bad ↦ untouched (ground (arith, bad)) (ground (arith, bad))
    | inr (c, good) ↦ untouched (ground (arith, good)) (ground (arith, good))
  ]
  logout-Change jwt token (some access) = elim (Option-cases (jwt.decode now token)) [
    | inl bad ↦ elim (Option-cases (jwt.decode now access)) [
      | inl worse ↦ untouched (ground (arith, bad, worse)) (ground (arith, bad, worse))
      | inr (d, fine) ↦ untouched (ground (arith, bad, fine)) (ground (arith, bad, fine))
    ]
    | inr (c, good) ↦ elim (Option-cases (jwt.decode now access)) [
      | inl worse ↦ untouched (ground (arith, good, worse)) (ground (arith, good, worse))
      | inr (d, fine) ↦ untouched (ground (arith, good, fine)) (ground (arith, good, fine))
    ]
  ]

  pub forgot_password-Change :
      (digest email : ℕ)
      → Change granted db (forgot_password digest email (open_at db redis now)).1.session.durable
  unfolding forgot_password request_password_reset
  forgot_password-Change digest email = elim (Option-cases (find email_key email db.users)) [
    | inl gone ↦ untouched (ground (arith, gone)) (ground (arith, gone))
    | inr (u, found) ↦ elim (Bool-cases u.is_active) [
      | inl active ↦ untouched (ground (arith, found, active)) (ground (arith, found, active))
      | inr waiting ↦ untouched (ground (arith, found, waiting)) (ground (arith, found, waiting))
    ]
  ]
