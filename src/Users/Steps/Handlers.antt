-- ===== src/Users/Steps/Handlers.antt =====
-- The handlers that write an account do what the relation allows.
use food_delivery_system.Base.{
  ℕ, ◌≡◌, ◌⊎◌, ◌≤◌, refl, sym, ◌∙◌, Bool, true, false, none, some, find, find-key, ◌==◌, ◌&&◌,
  arith, Bool-cases, Option-cases, inl, inr, ap, IsKeyed, find-IsKeyed, All-find,
}
use food_delivery_system.Users.Models.{
  ApprovalStatus, User, UsersDb, user_key, email_key, phone_key,
}
use food_delivery_system.Users.Redis.{Redis, consume_single_use}
use food_delivery_system.Users.Store.{open_at}
use food_delivery_system.Users.Accounts.{
  Hashing, is_restaurant, decided, is_unchanged, is_approved, awaits_reset, is_password_of,
  with_password, apply_restaurant_decision, reset_admin_password,
}
use food_delivery_system.Users.Sessions.{TokenIds, reset_password, change_password}
use food_delivery_system.Users.Profile.{UserUpdate, updated, is_clash, update_profile}
use food_delivery_system.Users.Steps.{IsSuccessor, Change, untouched, changed}

module _ (granted : ℕ → Bool) (db : UsersDb) (redis : Redis) (now : ℕ) where
  kept :
      (u v : User)
      → find user_key u.id db.users ≡ some u
      → v.id ≡ u.id
      → v.email ≡ u.email
      → v.role ≡ u.role
      → v.phone ≡ u.phone
      → v.is_active ≡ u.is_active
      → u.session_generation ≤ v.session_generation
      → IsSuccessor granted db u v
  kept u v found id email role phone active generation = record {
    found = ap (λ k. find user_key k db.users) id ∙ found;
    email = sym email;
    role = sym role;
    phone = inl (sym phone);
    generation = generation;
    active = inr active;
  }

  pub reset_admin_password-Change :
      (h : Hashing) (salt email old new : ℕ)
      → IsKeyed user_key db.users
      → Change granted db
          (reset_admin_password h salt email old new (open_at db redis now)).1.session.durable
  unfolding reset_admin_password
  reset_admin_password-Change h salt email old new keyed =
      elim (Option-cases (find email_key email db.users)) [
        | inl none_has ↦ untouched (ground arith) (ground arith)
        | inr (u, found) ↦
            elim (Bool-cases (awaits_reset (some u) && is_password_of h old (some u))) [
              | inr refused ↦
                  untouched (ground (arith, found, refused)) (ground (arith, found, refused))
              | inl let_in ↦
                  let here =
                    All-find email_key (λ v. find user_key v.id db.users ≡ some v) email u db.users
                      (find-IsKeyed user_key db.users keyed) found in
                  changed u
                    (record (with_password (h.hash salt new) u) { password_reset_required = false })
                    (kept u
                      (record (with_password (h.hash salt new) u) {
                        password_reset_required = false;
                      })
                      here refl refl refl refl refl (omega arith))
                    (ground (arith, found, let_in)) (ground (arith, found, let_in))
            ]
      ]

  pub change_password-Change :
      (h : Hashing) (salt : ℕ) (ids : TokenIds) (u : User) (current new : ℕ)
      → find user_key u.id db.users ≡ some u
      → Change granted db
          (change_password h salt ids u current new (open_at db redis now)).1.session.durable
  unfolding change_password
  change_password-Change h salt ids u current new found =
      elim (Bool-cases (h.verify current u.hashed_password)) [
        | inr wrong ↦ untouched (ground arith) (ground arith)
        | inl right ↦
            changed u (with_password (h.hash salt new) u)
              (kept u (with_password (h.hash salt new) u) found refl refl refl refl refl
                (omega arith))
              (ground (arith, right)) (ground (arith, right))
      ]

  pub reset_password-Change :
      (h : Hashing) (salt digest password : ℕ)
      → Change granted db
          (reset_password h salt digest password (open_at db redis now)).1.session.durable
  unfolding reset_password
  reset_password-Change h salt digest password =
      elim (Option-cases (consume_single_use now digest redis).0) [
        | inl used ↦ untouched (ground arith) (ground arith)
        | inr (id, redeemed) ↦ elim (Option-cases (find user_key id db.users)) [
          | inl gone ↦ untouched (ground arith) (ground arith)
          | inr (u, found) ↦
              let same = find-key user_key id u db.users found in
              changed u (with_password (h.hash salt password) u)
                (kept u (with_password (h.hash salt password) u)
                  (ap (λ k. find user_key k db.users) same ∙ found) refl refl refl refl refl
                  (omega arith))
                (ground (arith, redeemed, found)) (ground (arith, redeemed, found))
        ]
      ]

  decided-IsSuccessor :
      (owner_id : ℕ) (status : ApprovalStatus) (u : User)
      → (is_approved status ≡ true → granted owner_id ≡ true)
      → find user_key owner_id db.users ≡ some u
      → IsSuccessor granted db u (decided status u)
  decided-IsSuccessor owner_id status u allowed found =
      let same = find-key user_key owner_id u db.users found in
      record {
        found = ap (λ k. find user_key k db.users) same ∙ found;
        email = refl;
        role = refl;
        phone = inl refl;
        generation = omega arith;
        active = elim (Bool-cases (is_approved status)) [
          | inl let_in ↦ inl (ap granted same ∙ allowed let_in)
          | inr kept_out ↦ inr (ground arith)
        ];
      }

  pub apply_restaurant_decision-Change :
      (owner_id : ℕ) (status : ApprovalStatus)
      → (is_approved status ≡ true → granted owner_id ≡ true)
      → Change granted db
          (apply_restaurant_decision owner_id status (open_at db redis now)).1.session.durable
  unfolding apply_restaurant_decision
  apply_restaurant_decision-Change owner_id status allowed =
      elim (Option-cases (find user_key owner_id db.users)) [
        | inl gone ↦ untouched (ground arith) (ground arith)
        | inr (u, found) ↦ elim (Bool-cases (is_restaurant u.role)) [
          | inr other ↦ untouched (ground arith) (ground arith)
          | inl owner ↦ elim (Bool-cases (is_unchanged status u)) [
            | inl unchanged ↦ untouched (ground arith) (ground arith)
            | inr news ↦
                changed u (decided status u) (decided-IsSuccessor owner_id status u allowed found)
                  (ground (arith, found, owner, news)) (ground (arith, found, owner, news))
          ]
        ]
      ]

  unclashed :
      (u : User) (d : UserUpdate)
      → is_clash u d.phone db.users ≡ false
      → (u.phone ≡ (updated d u).phone) ⊎ (find phone_key (updated d u).phone db.users ≡ none)
  unclashed u d free = elim (Option-cases d.phone) [
    | inl none_given ↦ inl (ground arith)
    | inr (phone, given) ↦ elim (Bool-cases (phone == u.phone)) [
      | inl same ↦ inl (ground arith)
      | inr new ↦ inr (ground arith)
    ]
  ]

  pub update_profile-Change :
      (lost_race : Bool) (u : User) (d : UserUpdate)
      → find user_key u.id db.users ≡ some u
      → Change granted db (update_profile lost_race u d (open_at db redis now)).1.session.durable
  unfolding update_profile
  update_profile-Change true u d found = elim (Bool-cases (is_clash u d.phone db.users)) [
    | inl clash ↦ untouched (ground arith) (ground arith)
    | inr free ↦ untouched (ground arith) (ground arith)
  ]
  update_profile-Change false u d found = elim (Bool-cases (is_clash u d.phone db.users)) [
    | inl clash ↦ untouched (ground arith) (ground arith)
    | inr free ↦
        changed u (updated d u)
          (record {
            found = found;
            email = refl;
            role = refl;
            phone = unclashed u d free;
            generation = omega arith;
            active = inr refl;
          })
          (ground (arith, free)) (ground (arith, free))
  ]
