-- ===== src/Users/Rotation.antt =====
-- A refresh token is exchanged once: its entry in the blocklist outlives it, over whatever is asked meanwhile.
use mathlib.Core.Path.{subst}
use food_delivery_system.Base.{
  ℕ, ◌+◌, ◌≡◌, ◌≤◌, ◌<◌, sym, ◌∙◌, ap, true, none, some, List, ◌∷◌, find, find-save, ◌==◌, arith,
  Bool-cases, Option-cases, inl, inr, read_ok, ok,
}
use food_delivery_system.Users.Models.{UsersDb, user_key}
use food_delivery_system.Users.Redis.{Revoked, Redis, revoked_key, blocklist_jti, is_revoked}
use food_delivery_system.Users.Jwt.{Claims, Jwt, IsJwt, is_refresh, jwt_refresh_expiration_seconds}
use food_delivery_system.Users.Store.{open_at}
use food_delivery_system.Users.Sessions.{
  TokenIds, TokenResponse, exchange, refresh_tokens, verify_token,
}
use food_delivery_system.Users.Requests.{World, Request, refresh, act, Stores, serve, serve_all}
use food_delivery_system.Users.Eviction.{verify_token-state, refresh_tokens-ok}
use food_delivery_system.Users.Steps.Requests.{drop_result-state}
use food_delivery_system.Users.Revocation.{IsBlocked, IsSpared, serve_all-IsBlocked}

exchange-saves :
    (ids : TokenIds) (c : Claims) (db : UsersDb) (redis : Redis) (now : ℕ) (t : TokenResponse)
    → (exchange ids c (open_at db redis now)).0 ≡ ok t
    → (exchange ids c (open_at db redis now)).1.redis
      ≡ blocklist_jti now c.jti jwt_refresh_expiration_seconds redis
exchange-saves ids c db redis now t e = elim (Bool-cases (is_refresh c.token_type)) [
  | inr other ↦ ground (arith, other, e)
  | inl right ↦ elim (Bool-cases (is_revoked now c.jti redis)) [
    | inl revoked ↦ ground (arith, right, revoked, e)
    | inr live ↦ elim (Option-cases (find user_key c.sub db.users)) [
      | inl gone ↦ ground (arith, right, live, gone, e)
      | inr (u, found) ↦ elim (Bool-cases u.is_active) [
        | inr waiting ↦ ground (arith, right, live, found, waiting, e)
        | inl active ↦ elim (Bool-cases (c.gen == u.session_generation)) [
          | inr stale ↦ ground (arith, right, live, found, active, stale, e)
          | inl fresh ↦ ground (arith, right, live, found, active, fresh)
        ]
      ]
    ]
  ]
]

exchanged-IsBlocked :
    (ids : TokenIds) (c : Claims) (db : UsersDb) (redis : Redis) (now : ℕ) (t : TokenResponse)
    → (exchange ids c (open_at db redis now)).0 ≡ ok t
    → IsBlocked c.jti
        (now + jwt_refresh_expiration_seconds)
        (exchange ids c (open_at db redis now)).1.redis.blocklist
unfolding blocklist_jti
exchanged-IsBlocked ids c db redis now t e =
    let entry : Revoked = record {
      jti = c.jti;
      expires_at = now + jwt_refresh_expiration_seconds;
    } in
    subst (λ r. IsBlocked c.jti (now + jwt_refresh_expiration_seconds) r.blocklist)
      (sym (exchange-saves ids c db redis now t e))
      (entry, (ground (arith, find-save revoked_key c.jti entry redis.blocklist), omega arith))

refresh_tokens-bad :
    (jwt : Jwt) (db : UsersDb) (redis : Redis) (now token : ℕ) (ids : TokenIds) (t : TokenResponse)
    → jwt.decode now token ≡ none
    → ¬ ((refresh_tokens jwt ids token (open_at db redis now)).0 ≡ ok t)
unfolding refresh_tokens
refresh_tokens-bad jwt db redis now token ids t bad = λ e. ground (arith, bad, e)

entry_revoked :
    (jti now : ℕ) (e : Revoked) (r : Redis)
    → find revoked_key jti r.blocklist ≡ some e
    → now < e.expires_at
    → is_revoked now jti r ≡ true
unfolding is_revoked
entry_revoked jti now e r found live = ground (arith, found, live)

-- A successful exchange leaves the entry.
refreshed-IsBlocked :
    (jwt : Jwt) (ids : TokenIds) (token now : ℕ) (db : UsersDb) (redis : Redis) (c : Claims)
    (t : TokenResponse)
    → jwt.decode now token ≡ some c
    → (refresh_tokens jwt ids token (open_at db redis now)).0 ≡ ok t
    → IsBlocked c.jti
        (now + jwt_refresh_expiration_seconds)
        (refresh_tokens jwt ids token (open_at db redis now)).1.redis.blocklist
unfolding refresh_tokens
refreshed-IsBlocked jwt ids token now db redis c t good e =
    let start = open_at db redis now in
    let ran =
      read_ok (verify_token jwt token) (exchange ids) start c
        (verify_token-state jwt db redis now token) (ground (arith, good)) in
    subst (λ x. IsBlocked c.jti (now + jwt_refresh_expiration_seconds) x.1.redis.blocklist)
      (sym ran) (exchanged-IsBlocked ids c db redis now t (sym (ap (λ r. r.0) ran) ∙ e))

-- Where tokens are decoded as PyJWT documents, a refresh token that expires within the lifetime of a new one and that
-- has been exchanged is never exchanged again: not after any requests that come no earlier, as long as no log-out
-- among them presents it in the place of the access token.
pub refresh_tokens-once :
    (w : World) (s : Stores) (now token : ℕ) (ids : TokenIds) (c : Claims) (t : TokenResponse)
    → (history : List (ℕ × Request)) (later : ℕ) (others : TokenIds) (x : TokenResponse)
    → IsJwt w.jwt
    → w.jwt.decode now token ≡ some c
    → c.exp ≤ now + jwt_refresh_expiration_seconds
    → (refresh_tokens w.jwt ids token (open_at s.db s.redis now)).0 ≡ ok t
    → IsSpared w c.jti now history
    → let after = serve_all w ((now, refresh ids token) ∷ history) s in
      ¬ ((refresh_tokens w.jwt others token (open_at after.db after.redis later)).0 ≡ ok x)
unfolding serve_all serve act
refresh_tokens-once w s now token ids c t history later others x laws good short done spared = λ e.
    let after = serve_all w ((now, refresh ids token) ∷ history) s in
    let first =
      subst (λ z. IsBlocked c.jti (now + jwt_refresh_expiration_seconds) z.redis.blocklist)
        (sym (drop_result-state (refresh_tokens w.jwt ids token) (open_at s.db s.redis now)))
        (refreshed-IsBlocked w.jwt ids token now s.db s.redis c t good done) in
    let blocked =
      serve_all-IsBlocked w c.jti (now + jwt_refresh_expiration_seconds) now history
        (serve w now (refresh ids token) s) (omega arith) spared first in
    refused w.jwt laws now later token c others after x good short blocked e
  where
    refused :
        (jwt : Jwt)
        → IsJwt jwt
        → (now later token : ℕ) (c : Claims) (others : TokenIds) (s : Stores) (x : TokenResponse)
        → jwt.decode now token ≡ some c
        → c.exp ≤ now + jwt_refresh_expiration_seconds
        → IsBlocked c.jti (now + jwt_refresh_expiration_seconds) s.redis.blocklist
        → ¬ ((refresh_tokens jwt others token (open_at s.db s.redis later)).0 ≡ ok x)
    refused jwt laws now later token c others s x good short (entry, (found, long)) e =
        elim (Option-cases (jwt.decode later token)) [
          | inl bad ↦ refresh_tokens-bad jwt s.db s.redis later token others x bad e
          | inr (d, read) ↦
              let same = laws.stable now later token c d good read in
              let valid = laws.expires later token d read in
              let live = (refresh_tokens-ok jwt s.db s.redis later token others d x read e).0 in
              let revoked =
                entry_revoked c.jti later entry s.redis found
                  (ground (arith, same, valid, short, long)) in
              ground (arith, revoked, ap (λ z. is_revoked later z.jti s.redis) same ∙ live)
        ]
