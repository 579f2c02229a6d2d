-- ===== src/Users/Steps/Blocklist.antt =====
-- The handlers that revoke nothing keep the blocklist.
use food_delivery_system.Base.{
  ℕ, ◌≡◌, ◌∙◌, ap, Bool, some, find, any, ◌==◌, ◌&&◌, ◌||◌, arith, Bool-cases, Option-cases, inl,
  inr,
}
use food_delivery_system.Shared.Identity.{is_admin}
use food_delivery_system.Users.Models.{ApprovalStatus, User, UsersDb, user_key, email_key}
use food_delivery_system.Users.Redis.{Redis, consume_single_use, issue_single_use}
use food_delivery_system.Users.Store.{Act, open_at}
use food_delivery_system.Users.Accounts.{
  Hashing, UserRegister, first_where, is_restaurant, is_unchanged, awaits_reset, is_password_of,
  register_user, apply_restaurant_decision, bootstrap_admin, reset_admin_password,
}
use food_delivery_system.Users.Sessions.{
  TokenIds, request_password_reset, reset_password, change_password,
}
use food_delivery_system.Users.Profile.{UserUpdate, is_clash, update_profile}
use food_delivery_system.Users.Routes.{forgot_password}
use food_delivery_system.Users.Requests.{drop_result}
use food_delivery_system.Users.Steps.Requests.{drop_result-state}

module _ (db : UsersDb) (redis : Redis) (now : ℕ) where
  -- An action that leaves the blocklist as it is.
  abbrev pub Blocks : {A : Type 0} → Act A → Type 0
  Blocks m = (m (open_at db redis now)).1.redis.blocklist ≡ redis.blocklist

  pub result_dropped : {A : Type 0} (m : Act A) → Blocks m → Blocks (drop_result m)
  result_dropped m h = ap (λ s. s.redis.blocklist) (drop_result-state m (open_at db redis now)) ∙ h

  pub register_user-blocklist :
      (h : Hashing) (salt : ℕ) (lost_race : Bool) (d : UserRegister)
      → Blocks (register_user h salt lost_race d)
  unfolding register_user
  register_user-blocklist h salt lost_race d =
      elim (Option-cases (first_where (λ u. u.email == d.email || u.phone == d.phone) db.users)) [
        | inr (u, taken) ↦ ground (arith, taken)
        | inl free ↦ elim (Bool-cases lost_race) [
          | inl lost ↦ elim (Bool-cases (is_restaurant d.role)) [
            | inl owner ↦ ground (arith, free, lost, owner)
            | inr other ↦ ground (arith, free, lost, other)
          ]
          | inr won ↦ elim (Bool-cases (is_restaurant d.role)) [
            | inl owner ↦ ground (arith, free, won, owner)
            | inr other ↦ ground (arith, free, won, other)
          ]
        ]
      ]

  pub bootstrap_admin-blocklist :
      (h : Hashing) (salt : ℕ) (lost_race : Bool) (email password : ℕ)
      → Blocks (bootstrap_admin h salt lost_race email password)
  unfolding bootstrap_admin
  bootstrap_admin-blocklist h salt lost_race email password =
      elim (Bool-cases (any (λ u. is_admin u.role) db.users)) [
        | inl exists ↦ ground (arith, exists)
        | inr first ↦ elim (Bool-cases (any (λ u. u.email == email || u.phone == email) db.users)) [
          | inl taken ↦ ground (arith, first, taken)
          | inr free ↦ elim (Bool-cases lost_race) [
            | inl lost ↦ ground (arith, first, free, lost)
            | inr won ↦ ground (arith, first, free, won)
          ]
        ]
      ]

  pub reset_admin_password-blocklist :
      (h : Hashing) (salt email old new : ℕ) → Blocks (reset_admin_password h salt email old new)
  unfolding reset_admin_password
  reset_admin_password-blocklist h salt email old new =
      elim (Option-cases (find email_key email db.users)) [
        | inl gone ↦ ground (arith, gone)
        | inr (u, found) ↦
            elim (Bool-cases (awaits_reset (some u) && is_password_of h old (some u))) [
              | inr refused ↦ ground (arith, found, refused)
              | inl let_in ↦ ground (arith, found, let_in)
            ]
      ]

  pub apply_restaurant_decision-blocklist :
      (owner_id : ℕ) (status : ApprovalStatus) → Blocks (apply_restaurant_decision owner_id status)
  unfolding apply_restaurant_decision
  apply_restaurant_decision-blocklist owner_id status =
      elim (Option-cases (find user_key owner_id db.users)) [
        | inl gone ↦ ground (arith, gone)
        | inr (u, found) ↦ elim (Bool-cases (is_restaurant u.role)) [
          | inr other ↦ ground (arith, found, other)
          | inl owner ↦ elim (Bool-cases (is_unchanged status u)) [
            | inl unchanged ↦ ground (arith, found, owner, unchanged)
            | inr news ↦ ground (arith, found, owner, news)
          ]
        ]
      ]

  pub forgot_password-blocklist : (digest email : ℕ) → Blocks (forgot_password digest email)
  unfolding forgot_password request_password_reset issue_single_use
  forgot_password-blocklist digest email = elim (Option-cases (find email_key email db.users)) [
    | inl gone ↦ ground (arith, gone)
    | inr (u, found) ↦ elim (Bool-cases u.is_active) [
      | inl active ↦ ground (arith, found, active)
      | inr waiting ↦ ground (arith, found, waiting)
    ]
  ]

  pub reset_password-blocklist :
      (h : Hashing) (salt digest password : ℕ) → Blocks (reset_password h salt digest password)
  unfolding reset_password consume_single_use
  reset_password-blocklist h salt digest password =
      elim (Option-cases (consume_single_use now digest redis).0) [
        | inl used ↦ ground (arith, used)
        | inr (id, redeemed) ↦ elim (Option-cases (find user_key id db.users)) [
          | inl gone ↦ ground (arith, redeemed, gone)
          | inr (u, found) ↦ ground (arith, redeemed, found)
        ]
      ]

  pub change_password-blocklist :
      (h : Hashing) (salt : ℕ) (ids : TokenIds) (u : User) (current new : ℕ)
      → Blocks (change_password h salt ids u current new)
  unfolding change_password
  change_password-blocklist h salt ids u current new =
      elim (Bool-cases (h.verify current u.hashed_password)) [
        | inr wrong ↦ ground (arith, wrong)
        | inl right ↦ ground (arith, right)
      ]

  pub update_profile-blocklist :
      (lost_race : Bool) (u : User) (d : UserUpdate) → Blocks (update_profile lost_race u d)
  unfolding update_profile
  update_profile-blocklist lost_race u d = elim (Bool-cases (is_clash u d.phone db.users)) [
    | inl clash ↦ ground (arith, clash)
    | inr free ↦ elim (Bool-cases lost_race) [
      | inl lost ↦ ground (arith, free, lost)
      | inr won ↦ ground (arith, free, won)
    ]
  ]
