-- ===== src/Users/Eviction.antt =====
-- Who is kept out for good: a session that a new password ended, and an applicant nobody approved.
use food_delivery_system.Base.{
  ℕ, ◌≡◌, ◌≤◌, ◌<◌, IsKeyed, sym, ◌∙◌, ap, true, false, some, List, ◌∷◌, find, find-save, All-find,
  ◌==◌, arith, Bool-cases, Option-cases, inl, inr, ok, find-IsKeyed, read_ok,
}
use food_delivery_system.Users.Models.{User, UsersDb, user_key, email_key}
use food_delivery_system.Users.Redis.{Redis, is_revoked}
use food_delivery_system.Users.Jwt.{Claims, Jwt, is_refresh}
use food_delivery_system.Users.Store.{open_at}
use food_delivery_system.Users.Accounts.{Hashing, with_password}
use food_delivery_system.Users.Sessions.{
  TokenIds, TokenResponse, exchange, login, current_user, verify_token, refresh_tokens,
  change_password,
}
use food_delivery_system.Users.Requests.{
  World, Request, own, set_password, serve_own, act, Stores, serve, serve_all,
}
use food_delivery_system.Users.Steps.Requests.{
  drop_result-state, current_user-state, current_user-IsHolder,
}
use food_delivery_system.Users.Steps.Serve.{
  grants, act-Change, IsUnique, Change-IsUnique, serve_all-IsUnique,
}
use food_delivery_system.Users.Steps.Fate.{NoApproval, serve_all-row}

module _ (jwt : Jwt) (db : UsersDb) (redis : Redis) (now token : ℕ) where
  exchanged :
      (ids : TokenIds) (c : Claims) (t : TokenResponse)
      → (exchange ids c (open_at db redis now)).0 ≡ ok t
      → (is_revoked now c.jti redis ≡ false)
        × ((u : User) × ((find user_key c.sub db.users ≡ some u) × (c.gen ≡ u.session_generation)))
  exchanged ids c t e = elim (Bool-cases (is_refresh c.token_type)) [
    | inr other ↦ ground (arith, other, e)
    | inl right ↦ elim (Bool-cases (is_revoked now c.jti redis)) [
      | inl revoked ↦ ground (arith, right, revoked, e)
      | inr live ↦ (live, holder right live)
    ]
  ]
    where
      holder :
          is_refresh c.token_type ≡ true
          → is_revoked now c.jti redis ≡ false
          → (u : User) × ((find user_key c.sub db.users ≡ some u) × (c.gen ≡ u.session_generation))
      holder right live = elim (Option-cases (find user_key c.sub db.users)) [
        | inl gone ↦ ground (arith, right, live, gone, e)
        | inr (u, found) ↦ (
          u,
          (
            found,
            elim (Bool-cases (c.gen == u.session_generation)) [
              | inl same ↦ ground (arith, same)
              | inr stale ↦ ground (arith, right, live, found, stale, e)
            ],
          ),
        )
      ]

  pub verify_token-state : (verify_token jwt token (open_at db redis now)).1 ≡ open_at db redis now
  verify_token-state = elim (Option-cases (jwt.decode now token)) [
    | inl bad ↦ ground (arith, bad)
    | inr (c, good) ↦ ground (arith, good)
  ]

  -- The claims of a token that was exchanged: not revoked, and of the account's session generation.
  pub refresh_tokens-ok :
      (ids : TokenIds) (c : Claims) (t : TokenResponse)
      → jwt.decode now token ≡ some c
      → (refresh_tokens jwt ids token (open_at db redis now)).0 ≡ ok t
      → (is_revoked now c.jti redis ≡ false)
        × ((u : User) × ((find user_key c.sub db.users ≡ some u) × (c.gen ≡ u.session_generation)))
  unfolding refresh_tokens
  refresh_tokens-ok ids c t good e =
      let ran =
        read_ok (verify_token jwt token) (exchange ids) (open_at db redis now) c verify_token-state
          (ground (arith, good)) in
      exchanged ids c t (sym (ap (λ r. r.0) ran) ∙ e)

module _ (w : World) (s : Stores) where
  set_password-row :
      (now token salt : ℕ) (ids : TokenIds) (current new : ℕ) (u : User)
      → (current_user w.jwt token (open_at s.db s.redis now)).0 ≡ ok u
      → w.hashing.verify current u.hashed_password ≡ true
      → find user_key u.id (serve w now (own token (set_password salt ids current new)) s).db.users
        ≡ some (with_password (w.hashing.hash salt new) u)
  unfolding serve act serve_own change_password
  set_password-row now token salt ids current new u in_it right =
      let start = open_at s.db s.redis now in
      let k : User → _ = λ v. serve_own w v (set_password salt ids current new) in
      let ran =
        read_ok (current_user w.jwt token) k start u
          (current_user-state w.jwt s.db s.redis now token) in_it in
      let same = drop_result-state (change_password w.hashing salt ids u current new) start in
      ap (λ r. find user_key u.id r.1.session.durable.users) ran
      ∙ ap (λ x. find user_key u.id x.session.durable.users) same
      ∙ ground (
        arith,
        right,
        find-save user_key u.id (with_password (w.hashing.hash salt new) u) s.db.users,
      )

  -- Claims whose account is in a later session generation by now are refused.
  stale_refused :
      (later token : ℕ) (ids : TokenIds) (c : Claims) (u v : User) (t : TokenResponse)
      → w.jwt.decode later token ≡ some c
      → find user_key c.sub s.db.users ≡ some u
      → c.gen < u.session_generation
      → ¬ ((current_user w.jwt token (open_at s.db s.redis later)).0 ≡ ok v)
        × ¬ ((refresh_tokens w.jwt ids token (open_at s.db s.redis later)).0 ≡ ok t)
  stale_refused later token ids c u v t good found old = (
    λ e.
        let (d, (_, held)) = current_user-IsHolder w.jwt s.db s.redis later token v e in
        ground (arith, good, held.read, held.row, held.session, found, old),
    λ e.
        let (_, (x, (row, same))) =
          refresh_tokens-ok w.jwt s.db s.redis later token ids c t good e in
        ground (arith, row, same, found, old),
  )

-- When a signed-in user sets a new password and gives the current one, in a database whose ids, emails and phones are
-- unique, then whatever requests follow, a token whose claims are of that account and of its session generation at
-- the time, or of an earlier one, neither signs anybody in nor is exchanged for new tokens.
pub set_password-evicts :
    (w : World) (s : Stores) (now token salt : ℕ) (ids : TokenIds) (current new : ℕ) (u : User)
    → (history : List (ℕ × Request))
    → (later old : ℕ) (c : Claims) (others : TokenIds) (v : User) (t : TokenResponse)
    → IsUnique s.db
    → (current_user w.jwt token (open_at s.db s.redis now)).0 ≡ ok u
    → w.hashing.verify current u.hashed_password ≡ true
    → w.jwt.decode later old ≡ some c
    → c.sub ≡ u.id
    → c.gen ≤ u.session_generation
    → let after = serve_all w ((now, own token (set_password salt ids current new)) ∷ history) s in
      ¬ ((current_user w.jwt old (open_at after.db after.redis later)).0 ≡ ok v)
      × ¬ ((refresh_tokens w.jwt others old (open_at after.db after.redis later)).0 ≡ ok t)
unfolding serve_all serve
set_password-evicts w s now token salt ids current new u history later old c others v t h in_it
      right good who gen =
    let r = own token (set_password salt ids current new) in
    let next = serve w now r s in
    let unique =
      Change-IsUnique (grants r) s.db next.db (act-Change w s.db s.redis now r h.ids) h in
    let row = set_password-row w s now token salt ids current new u in_it right in
    let (x, (found, later_row)) =
      serve_all-row w u.id (with_password (w.hashing.hash salt new) u) history next unique row in
    stale_refused w (serve_all w history next) later old others c x v t good
      (ap (λ k. find user_key k (serve_all w history next).db.users) who ∙ found)
      (omega (arith, gen, later_row.generation))

login-active :
    (h : Hashing) (ids : TokenIds) (email password now : ℕ) (db : UsersDb) (redis : Redis)
    (t : TokenResponse)
    → (login h ids email password (open_at db redis now)).0 ≡ ok t
    → (u : User) × ((find email_key email db.users ≡ some u) × (u.is_active ≡ true))
unfolding login
login-active h ids email password now db redis t e =
    elim (Option-cases (find email_key email db.users)) [
      | inl gone ↦ ground (arith, gone, e)
      | inr (u, found) ↦ (
        u,
        (
          found,
          elim (Bool-cases u.is_active) [
            | inl active ↦ active
            | inr waiting ↦ elim (Bool-cases (h.verify password u.hashed_password)) [
              | inl right ↦ ground (arith, found, waiting, right, e)
              | inr wrong ↦ ground (arith, found, waiting, wrong, e)
            ]
          ],
        ),
      )
    ]

same_email :
    (email k : ℕ) (u v : User) (rows : List User)
    → IsKeyed email_key rows
    → find user_key k rows ≡ some u
    → u.email ≡ email
    → find email_key email rows ≡ some v
    → v ≡ u
same_email email k u v rows keyed e same f =
    let here =
      All-find user_key (λ r. find email_key r.email rows ≡ some r) k u rows
        (find-IsKeyed email_key rows keyed) e in
    let both : some v ≡ some u = sym f ∙ ap (λ x. find email_key x rows) (sym same) ∙ here in
    ground (arith, both)

-- In a database whose ids, emails and phones are unique, an account that is not active cannot log in, with any
-- password, after any requests none of which approves it.
pub serve_all-waits :
    (w : World) (s : Stores) (k : ℕ) (u : User) (history : List (ℕ × Request))
    → (ids : TokenIds) (password later : ℕ) (t : TokenResponse) → IsUnique s.db
    → find user_key k s.db.users ≡ some u
    → u.is_active ≡ false
    → NoApproval k history
    → let after = serve_all w history s in
      ¬ ((login w.hashing ids u.email password (open_at after.db after.redis later)).0 ≡ ok t)
serve_all-waits w s k u history ids password later t h found waiting quiet = λ e.
    let after = serve_all w history s in
    let (v, (row, same)) = serve_all-row w k u history s h found in
    let (x, (there, active)) =
      login-active w.hashing ids u.email password later after.db after.redis t e in
    let one =
      same_email u.email k v x after.db.users (serve_all-IsUnique w history s h).emails row
        (sym same.email) there in
    ground (arith, one, active, same.active quiet, waiting)
