-- ===== src/Users/Steps/OwnBlocklist.antt =====
-- A revoked token stays revoked: what every request leaves of its entry in the blocklist.
use food_delivery_system.Base.{
  ℕ, ◌≡◌, refl, false, not, select, or_else, any, ◌==◌, ◌>>=◌, ◌>>◌, arith, Bool-cases, inl, inr,
  after_read, ok,
}
use food_delivery_system.Users.Models.{User, UsersDb}
use food_delivery_system.Users.Redis.{Redis}
use food_delivery_system.Users.Store.{Act, set_db, commit_db, open_at}
use food_delivery_system.Users.Sessions.{current_user, change_password}
use food_delivery_system.Users.Profile.{
  Geocoder, AddressCreate, AddressUpdate, update_profile, owned_address, clear_if, store_address,
  revised, add_address, update_address, delete_address,
}
use food_delivery_system.Users.Favorites.{
  is_customer, customer_only, is_saved, add, remove, remove_favorite,
}
use food_delivery_system.Users.Requests.{
  World, Own, set_password, set_profile, new_address, edit_address, drop_address, save_restaurant,
  drop_restaurant, own, serve_own, act,
}
use food_delivery_system.Users.Steps.Requests.{owned_address-state, current_user-state}
use food_delivery_system.Users.Steps.Blocklist.{
  Blocks, result_dropped, change_password-blocklist, update_profile-blocklist,
}

module _ (db : UsersDb) (redis : Redis) (now : ℕ) where
  -- What only reads and what follows it.
  after_reading :
      {A B : Type 0} (m : Act A) (k : A → Act B)
      → (m (open_at db redis now)).1 ≡ open_at db redis now
      → ((a : A) → (m (open_at db redis now)).0 ≡ ok a → Blocks db redis now (k a))
      → Blocks db redis now (m >>= k)
  after_reading m k same later =
      after_read (λ s. s.redis.blocklist ≡ redis.blocklist) m k (open_at db redis now) same refl
        later

  add_address-blocklist :
      (geocode : Geocoder) (u : User) (d : AddressCreate)
      → Blocks db redis now (add_address geocode u d)
  unfolding add_address
  add_address-blocklist geocode u d = elim (Bool-cases d.is_default) [
    | inl set ↦ ground (arith, set)
    | inr plain ↦ ground (arith, plain)
  ]

  update_address-blocklist :
      (geocode : Geocoder) (u : User) (id : ℕ) (d : AddressUpdate)
      → Blocks db redis now (update_address geocode u id d)
  unfolding update_address
  update_address-blocklist geocode u id d =
      after_reading (owned_address u.id id)
        (λ a. clear_if (or_else d.is_default false) u.id >> store_address (revised geocode d a))
        (owned_address-state db redis now u id)
        (λ a _. elim (Bool-cases (or_else d.is_default false)) [
          | inl set ↦ ground (arith, set)
          | inr plain ↦ ground (arith, plain)
        ])

  delete_address-blocklist : (u : User) (id : ℕ) → Blocks db redis now (delete_address u id)
  unfolding delete_address
  delete_address-blocklist u id =
      after_reading (owned_address u.id id)
        (λ a.
          set_db (λ x. record x { addresses = select (λ r. not (r.id == a.id)) x.addresses })
          >> commit_db)
        (owned_address-state db redis now u id) (λ a _. refl)

  add-blocklist : (u : User) (id : ℕ) → Blocks db redis now (customer_only u >> add u.id id)
  unfolding add
  add-blocklist u id = elim (Bool-cases (is_customer u.role)) [
    | inr other ↦ ground (arith, other)
    | inl customer ↦ elim (Bool-cases (any (is_saved u.id id) db.favorites)) [
      | inl saved ↦ ground (arith, customer, saved)
      | inr fresh ↦ ground (arith, customer, fresh)
    ]
  ]

  remove_favorite-blocklist :
      (u : User) (id : ℕ) → Blocks db redis now (customer_only u >> remove_favorite u.id id)
  unfolding remove_favorite remove
  remove_favorite-blocklist u id = elim (Bool-cases (is_customer u.role)) [
    | inr other ↦ ground (arith, other)
    | inl customer ↦ elim (Bool-cases (any (is_saved u.id id) db.favorites)) [
      | inl saved ↦ ground (arith, customer, saved)
      | inr fresh ↦ ground (arith, customer, fresh)
    ]
  ]

  serve_own-blocklist :
      (w : World) (u : User) (what : Own) → Blocks db redis now (serve_own w u what)
  unfolding serve_own
  serve_own-blocklist w u (set_password salt ids current new) =
      result_dropped db redis now (change_password w.hashing salt ids u current new)
        (change_password-blocklist db redis now w.hashing salt ids u current new)
  serve_own-blocklist w u (set_profile lost_race d) =
      result_dropped db redis now (update_profile lost_race u d)
        (update_profile-blocklist db redis now lost_race u d)
  serve_own-blocklist w u (new_address d) =
      result_dropped db redis now (add_address w.geocode u d) (add_address-blocklist w.geocode u d)
  serve_own-blocklist w u (edit_address id d) =
      result_dropped db redis now (update_address w.geocode u id d)
        (update_address-blocklist w.geocode u id d)
  serve_own-blocklist w u (drop_address id) = delete_address-blocklist u id
  serve_own-blocklist w u (save_restaurant id) = add-blocklist u id
  serve_own-blocklist w u (drop_restaurant id) = remove_favorite-blocklist u id

  pub own-blocklist :
      (w : World) (token : ℕ) (what : Own) → Blocks db redis now (act w (own token what))
  unfolding act
  own-blocklist w token what =
      after_reading (current_user w.jwt token) (λ u. serve_own w u what)
        (current_user-state w.jwt db redis now token) (λ u _. serve_own-blocklist w u what)
