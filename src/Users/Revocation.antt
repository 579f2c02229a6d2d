-- ===== src/Users/Revocation.antt =====
-- What a request leaves of an entry in the blocklist: an entry that lasts is only overwritten by one that lasts.
use mathlib.Core.Path.{subst}
use food_delivery_system.Base.{
  ℕ, ◌+◌, ◌≡◌, ◌≤◌, ◌⊎◌, sym, Bool, false, Option, none, some, List, [], ◌∷◌, find, find-save, All,
  ◌==◌, ◌>>◌, arith, Bool-cases, Option-cases, inl, inr, after_read,
}
use food_delivery_system.Users.Models.{UsersDb, user_key}
use food_delivery_system.Users.Redis.{Revoked, Redis, revoked_key, blocklist_jti, is_revoked}
use food_delivery_system.Users.Jwt.{
  Claims, Jwt, is_refresh, jwt_expiration_seconds, jwt_refresh_expiration_seconds,
}
use food_delivery_system.Users.Store.{State, Act, open_at}
use food_delivery_system.Users.Accounts.{
  register_user, bootstrap_admin, reset_admin_password, apply_restaurant_decision,
}
use food_delivery_system.Users.Sessions.{
  TokenIds, exchange, refresh_tokens, verify_token, revoke_claims, revoke_if_given, logout,
}
use food_delivery_system.Users.Requests.{
  World, Request, register, bootstrap, reset_admin, decision, refresh, sign_out, forgot, reset, own,
  act, Stores, serve, serve_all,
}
use food_delivery_system.Users.Eviction.{verify_token-state}
use food_delivery_system.Users.Steps.Requests.{drop_result-state}
use food_delivery_system.Users.Steps.Blocklist.{
  Blocks, result_dropped, register_user-blocklist, bootstrap_admin-blocklist,
  reset_admin_password-blocklist, apply_restaurant_decision-blocklist, forgot_password-blocklist,
  reset_password-blocklist,
}
use food_delivery_system.Users.Steps.OwnBlocklist.{own-blocklist}

-- An entry of the blocklist that lasts until a time at least.
abbrev pub IsBlocked : ℕ → ℕ → List Revoked → Type 0
IsBlocked jti until rows =
    (e : Revoked) × ((find revoked_key jti rows ≡ some e) × (until ≤ e.expires_at))

abbrev pub carries_jti : ℕ → Option Claims → Bool
carries_jti jti none = false
carries_jti jti (some c) = c.jti == jti

-- A log-out that presents, as the access token, one with the id.
abbrev pub signs_out : Jwt → ℕ → ℕ → Request → Bool
signs_out jwt jti now (sign_out token (some access)) = carries_jti jti (jwt.decode now access)
signs_out jwt jti now _ = false

module _ (jti until : ℕ) where
  blocklist_jti-IsBlocked :
      (now other ttl : ℕ) (r : Redis)
      → IsBlocked jti until r.blocklist
      → ((other == jti) ≡ false) ⊎ (until ≤ now + ttl)
      → IsBlocked jti until (blocklist_jti now other ttl r).blocklist
  unfolding blocklist_jti
  blocklist_jti-IsBlocked now other ttl r (e, (found, long)) h = elim (Bool-cases (other == jti)) [
    | inr apart ↦ (
      e,
      (
        ground (
          arith,
          apart,
          found,
          find-save revoked_key jti (record { jti = other; expires_at = now + ttl }) r.blocklist,
        ),
        long,
      ),
    )
    | inl same ↦ elim h [
      | inl apart ↦ ground (arith, same, apart)
      | inr enough ↦ (
        record { jti = other; expires_at = now + ttl },
        (
          ground (
            arith,
            same,
            find-save revoked_key jti (record { jti = other; expires_at = now + ttl }) r.blocklist,
          ),
          enough,
        ),
      )
    ]
  ]

  -- The state keeps the entry.
  abbrev Holds : State → Type 0
  Holds s = IsBlocked jti until s.redis.blocklist

  module _ (db : UsersDb) (redis : Redis) (now : ℕ) where
    by_same :
        {A : Type 0} (m : Act A)
        → Blocks db redis now m
        → IsBlocked jti until redis.blocklist
        → Holds (m (open_at db redis now)).1
    by_same m same h = subst (IsBlocked jti until) (sym same) h

    exchange-IsBlocked :
        (ids : TokenIds) (c : Claims)
        → until ≤ now + jwt_refresh_expiration_seconds
        → IsBlocked jti until redis.blocklist
        → Holds (exchange ids c (open_at db redis now)).1
    exchange-IsBlocked ids c enough h = elim (Bool-cases (is_refresh c.token_type)) [
      | inr other ↦ by_same (exchange ids c) (ground (arith, other)) h
      | inl right ↦ elim (Bool-cases (is_revoked now c.jti redis)) [
        | inl revoked ↦ by_same (exchange ids c) (ground (arith, right, revoked)) h
        | inr live ↦ elim (Option-cases (find user_key c.sub db.users)) [
          | inl gone ↦ by_same (exchange ids c) (ground (arith, right, live, gone)) h
          | inr (u, found) ↦ elim (Bool-cases u.is_active) [
            | inr waiting ↦ by_same (exchange ids c) (ground (arith, right, live, found, waiting)) h
            | inl active ↦ elim (Bool-cases (c.gen == u.session_generation)) [
              | inr stale ↦
                  by_same (exchange ids c) (ground (arith, right, live, found, active, stale)) h
              | inl fresh ↦
                  let saved : (exchange ids c (open_at db redis now)).1.redis
                      ≡ blocklist_jti now c.jti jwt_refresh_expiration_seconds redis =
                    ground (arith, right, live, found, active, fresh) in
                  subst (λ r. IsBlocked jti until r.blocklist) (sym saved)
                    (blocklist_jti-IsBlocked now c.jti jwt_refresh_expiration_seconds redis h
                      (inr enough))
            ]
          ]
        ]
      ]
    ]

    refresh_tokens-IsBlocked :
        (jwt : Jwt) (ids : TokenIds) (token : ℕ)
        → until ≤ now + jwt_refresh_expiration_seconds
        → IsBlocked jti until redis.blocklist
        → Holds (refresh_tokens jwt ids token (open_at db redis now)).1
    unfolding refresh_tokens
    refresh_tokens-IsBlocked jwt ids token enough h =
        after_read Holds (verify_token jwt token) (exchange ids) (open_at db redis now)
          (verify_token-state jwt db redis now token) h (λ c _. exchange-IsBlocked ids c enough h)

    -- What the first half of a log-out leaves.
    revoked-IsBlocked :
        (o : Option Claims)
        → until ≤ now + jwt_refresh_expiration_seconds
        → IsBlocked jti until redis.blocklist
        → Holds (revoke_claims o jwt_refresh_expiration_seconds (open_at db redis now)).1
    revoked-IsBlocked none enough h = h
    revoked-IsBlocked (some c) enough h =
        blocklist_jti-IsBlocked now c.jti jwt_refresh_expiration_seconds redis h (inr enough)

  access-IsBlocked :
      (o : Option Claims) (s : State)
      → carries_jti jti o ≡ false
      → Holds s
      → Holds (revoke_claims o jwt_expiration_seconds s).1
  access-IsBlocked none s apart h = h
  access-IsBlocked (some d) s apart h =
      blocklist_jti-IsBlocked s.session.now d.jti jwt_expiration_seconds s.redis h (inl apart)

  module _ (db : UsersDb) (redis : Redis) (now : ℕ) where
    logout-IsBlocked :
        (jwt : Jwt) (token : ℕ) (access : Option ℕ)
        → signs_out jwt jti now (sign_out token access) ≡ false
        → until ≤ now + jwt_refresh_expiration_seconds
        → IsBlocked jti until redis.blocklist
        → Holds (logout jwt token access (open_at db redis now)).1
    unfolding logout
    logout-IsBlocked jwt token access apart enough h =
        go (jwt.decode now token) access apart
          (revoked-IsBlocked db redis now (jwt.decode now token) enough h)
      where
        go :
            (o : Option Claims) (access : Option ℕ)
            → signs_out jwt jti now (sign_out token access) ≡ false
            → Holds (revoke_claims o jwt_refresh_expiration_seconds (open_at db redis now)).1
            → Holds
                ((revoke_claims o jwt_refresh_expiration_seconds >> revoke_if_given jwt access)
                  (open_at db redis now)).1
        go none none apart first = first
        go (some c) none apart first = first
        go none (some a) apart first =
            access-IsBlocked (jwt.decode now a) (open_at db redis now) apart first
        go (some c) (some a) apart first =
            access-IsBlocked (jwt.decode now a)
              (revoke_claims (some c) jwt_refresh_expiration_seconds (open_at db redis now)).1 apart
              first

    act-IsBlocked :
        (w : World) (r : Request)
        → signs_out w.jwt jti now r ≡ false
        → until ≤ now + jwt_refresh_expiration_seconds
        → IsBlocked jti until redis.blocklist
        → Holds (act w r (open_at db redis now)).1
    unfolding act
    act-IsBlocked w (register salt lost_race d) apart enough h =
        by_same db redis now (act w (register salt lost_race d))
          (result_dropped db redis now (register_user w.hashing salt lost_race d)
            (register_user-blocklist db redis now w.hashing salt lost_race d))
          h
    act-IsBlocked w (bootstrap salt lost_race email password) apart enough h =
        by_same db redis now (act w (bootstrap salt lost_race email password))
          (result_dropped db redis now (bootstrap_admin w.hashing salt lost_race email password)
            (bootstrap_admin-blocklist db redis now w.hashing salt lost_race email password))
          h
    act-IsBlocked w (reset_admin salt email old new) apart enough h =
        by_same db redis now (act w (reset_admin salt email old new))
          (result_dropped db redis now (reset_admin_password w.hashing salt email old new)
            (reset_admin_password-blocklist db redis now w.hashing salt email old new))
          h
    act-IsBlocked w (decision owner_id status) apart enough h =
        by_same db redis now (act w (decision owner_id status))
          (result_dropped db redis now (apply_restaurant_decision owner_id status)
            (apply_restaurant_decision-blocklist db redis now owner_id status))
          h
    act-IsBlocked w (refresh ids token) apart enough h =
        subst Holds
          (sym (drop_result-state (refresh_tokens w.jwt ids token) (open_at db redis now)))
          (refresh_tokens-IsBlocked db redis now w.jwt ids token enough h)
    act-IsBlocked w (sign_out token access) apart enough h =
        logout-IsBlocked w.jwt token access apart enough h
    act-IsBlocked w (forgot digest email) apart enough h =
        by_same db redis now (act w (forgot digest email))
          (forgot_password-blocklist db redis now digest email) h
    act-IsBlocked w (reset salt digest password) apart enough h =
        by_same db redis now (act w (reset salt digest password))
          (reset_password-blocklist db redis now w.hashing salt digest password) h
    act-IsBlocked w (own token what) apart enough h =
        by_same db redis now (act w (own token what)) (own-blocklist db redis now w token what) h

-- Every request of a history comes at a time or later, and no log-out presents the id's token as an access token.
abbrev pub IsSpared : World → ℕ → ℕ → List (ℕ × Request) → Type 0
IsSpared w jti now history = All (λ e. (now ≤ e.0) × (signs_out w.jwt jti e.0 e.1 ≡ false)) history

pub serve_all-IsBlocked :
    (w : World) (jti until now : ℕ) (history : List (ℕ × Request)) (s : Stores)
    → until ≤ now + jwt_refresh_expiration_seconds
    → IsSpared w jti now history
    → IsBlocked jti until s.redis.blocklist
    → IsBlocked jti until (serve_all w history s).redis.blocklist
unfolding serve serve_all
serve_all-IsBlocked w jti until now [] s enough spared h = h
serve_all-IsBlocked w jti until now ((at, r) ∷ rest) s enough spared h =
    serve_all-IsBlocked w jti until now rest (serve w at r s) enough spared.1
      (act-IsBlocked jti until s.db s.redis at w r spared.0.1 (omega (arith, enough, spared.0.0)) h)
