-- ===== src/Users/Steps/Requests.antt =====
-- A request, whoever asks and whatever comes of it, is one step of the relation.
use mathlib.Core.Path.{subst}
use food_delivery_system.Base.{
  ℕ, ◌≡◌, refl, sym, Bool, true, false, not, some, find, ◌==◌, arith, Bool-cases, Option-cases, inl,
  inr, after_read, ok, Result-cases, any, or_else, select, ◌>>=◌, ◌>>◌,
}
use food_delivery_system.Users.Models.{User, Address, UsersDb, user_key, address_key}
use food_delivery_system.Users.Redis.{Redis, is_revoked}
use food_delivery_system.Users.Jwt.{Claims, Jwt, is_access}
use food_delivery_system.Users.Store.{State, Act, set_db, commit_db, open_at}
use food_delivery_system.Users.Sessions.{current_holder, admit, current_user}
use food_delivery_system.Users.Profile.{
  Geocoder, AddressCreate, AddressUpdate, owned_address, clear_if, store_address, revised,
  add_address, update_address, delete_address,
}
use food_delivery_system.Users.Favorites.{
  is_customer, customer_only, add, remove, remove_favorite, is_saved,
}
use food_delivery_system.Users.Requests.{drop_result}
use food_delivery_system.Users.Steps.{Change, untouched}

pub drop_result-state : {A : Type 0} (m : Act A) (s : State) → (drop_result m s).1 ≡ (m s).1
drop_result-state m s = elim (Result-cases (m s).0) [
  | inl won ↦ ground (arith, won.1)
  | inr lost ↦ ground (arith, lost.1)
]

-- Who `current_user` lets in: the claims of the token, and the row they name.
pub record IsHolder (jwt : Jwt) (db : UsersDb) (redis : Redis) (now token : ℕ) (c : Claims)
    (u : User) : Type 0 where
  pub read : jwt.decode now token ≡ some c
  pub live : is_revoked now c.jti redis ≡ false
  pub row : find user_key c.sub db.users ≡ some u
  pub active : u.is_active ≡ true
  pub session : c.gen ≡ u.session_generation

module _ (jwt : Jwt) (db : UsersDb) (redis : Redis) (now token : ℕ) where
  pub current_user-state : (current_user jwt token (open_at db redis now)).1 ≡ open_at db redis now
  unfolding current_user
  current_user-state = elim (Option-cases (jwt.decode now token)) [
    | inl bad ↦ ground (arith, bad)
    | inr (c, good) ↦ elim (Bool-cases (is_access c.token_type)) [
      | inr other ↦ ground (arith, good, other)
      | inl access ↦ elim (Bool-cases (is_revoked now c.jti redis)) [
        | inl revoked ↦ ground (arith, good, access, revoked)
        | inr live ↦ elim (Option-cases (find user_key c.sub db.users)) [
          | inl gone ↦ ground (arith, good, access, live, gone)
          | inr (u, found) ↦ ground (arith, good, access, live, found)
        ]
      ]
    ]
  ]

  pub current_holder-ok :
      (id gen : ℕ) (u : User)
      → (current_holder id gen (open_at db redis now)).0 ≡ ok u
      → (find user_key id db.users ≡ some u) × ((u.is_active ≡ true) × (gen ≡ u.session_generation))
  current_holder-ok id gen u e = elim (Option-cases (find user_key id db.users)) [
    | inl gone ↦ ground (arith, gone, e)
    | inr (v, found) ↦
        (ground (arith, found, e), (ground (arith, found, e), ground (arith, found, e)))
  ]

  claims_let_in :
      (c : Claims) (u : User)
      → jwt.decode now token ≡ some c
      → is_revoked now c.jti redis ≡ false
      → (current_holder c.sub c.gen (open_at db redis now)).0 ≡ ok u
      → IsHolder jwt db redis now token c u
  claims_let_in c u good live e =
      let row = current_holder-ok c.sub c.gen u e in
      record { read = good; live = live; row = row.0; active = row.1.0; session = row.1.1 }

  admitted :
      (c : Claims) (u : User)
      → jwt.decode now token ≡ some c
      → (admit c (open_at db redis now)).0 ≡ ok u
      → (is_access c.token_type ≡ true) × IsHolder jwt db redis now token c u
  admitted c u good e = elim (Bool-cases (is_access c.token_type)) [
    | inr other ↦ ground (arith, other, e)
    | inl access ↦ elim (Bool-cases (is_revoked now c.jti redis)) [
      | inl revoked ↦ ground (arith, access, revoked, e)
      | inr live ↦ (access, claims_let_in c u good live (ground (arith, access, live, e)))
    ]
  ]

  pub current_user-IsHolder :
      (u : User)
      → (current_user jwt token (open_at db redis now)).0 ≡ ok u
      → (c : Claims) × ((is_access c.token_type ≡ true) × IsHolder jwt db redis now token c u)
  unfolding current_user
  current_user-IsHolder u e = elim (Option-cases (jwt.decode now token)) [
    | inl bad ↦ ground (arith, bad, e)
    | inr (c, good) ↦ (c, admitted c u good (ground (arith, good, e)))
  ]

module _ (db : UsersDb) (redis : Redis) (now : ℕ) where
  pub owned_address-state :
      (u : User) (id : ℕ) → (owned_address u.id id (open_at db redis now)).1 ≡ open_at db redis now
  owned_address-state u id = elim (Option-cases (find address_key id db.addresses)) [
    | inl gone ↦ ground (arith, gone)
    | inr (a, found) ↦ elim (Bool-cases (a.user_id == u.id)) [
      | inl mine ↦ ground (arith, found, mine)
      | inr other ↦ ground (arith, found, other)
    ]
  ]

module _ (granted : ℕ → Bool) (db : UsersDb) (redis : Redis) (now : ℕ) where
  -- A handler that leaves the accounts alone, from a state.
  abbrev pub Spares : Act (Unit {0}) → Type 0
  Spares m = Change granted db (m (open_at db redis now)).1.session.durable

  -- A handler's step, whatever is made of its result.
  pub dropped :
      {A : Type 0} (m : Act A)
      → Change granted db (m (open_at db redis now)).1.session.durable
      → Spares (drop_result m)
  dropped m h =
      subst (λ s. Change granted db s.session.durable)
        (sym (drop_result-state m (open_at db redis now))) h

  pub add_address-Change :
      (geocode : Geocoder) (u : User) (d : AddressCreate)
      → Change granted db (add_address geocode u d (open_at db redis now)).1.session.durable
  unfolding add_address
  add_address-Change geocode u d = elim (Bool-cases d.is_default) [
    | inl set ↦ untouched (ground (arith, set)) (ground (arith, set))
    | inr plain ↦ untouched (ground (arith, plain)) (ground (arith, plain))
  ]

  -- What comes after the look-up of an address.
  after_owned :
      {A : Type 0} (u : User) (id : ℕ) (k : Address → Act A)
      → ((a : Address) → Change granted db (k a (open_at db redis now)).1.session.durable)
      → Change granted db ((owned_address u.id id >>= k) (open_at db redis now)).1.session.durable
  after_owned u id k h =
      after_read (λ s. Change granted db s.session.durable) (owned_address u.id id) k
        (open_at db redis now) (owned_address-state db redis now u id) (untouched refl refl)
        (λ a _. h a)

  pub update_address-Change :
      (geocode : Geocoder) (u : User) (id : ℕ) (d : AddressUpdate)
      → Change granted db (update_address geocode u id d (open_at db redis now)).1.session.durable
  unfolding update_address
  update_address-Change geocode u id d =
      after_owned u id
        (λ a. clear_if (or_else d.is_default false) u.id >> store_address (revised geocode d a))
        (λ a. elim (Bool-cases (or_else d.is_default false)) [
          | inl set ↦ untouched (ground (arith, set)) (ground (arith, set))
          | inr plain ↦ untouched (ground (arith, plain)) (ground (arith, plain))
        ])

  pub delete_address-Change : (u : User) (id : ℕ) → Spares (delete_address u id)
  unfolding delete_address
  delete_address-Change u id =
      after_owned u id
        (λ a.
          set_db (λ x. record x { addresses = select (λ r. not (r.id == a.id)) x.addresses })
          >> commit_db)
        (λ a. untouched (ground arith) (ground arith))

  pub add-Change : (u : User) (id : ℕ) → Spares (customer_only u >> add u.id id)
  unfolding add
  add-Change u id = elim (Bool-cases (is_customer u.role)) [
    | inr other ↦ untouched (ground (arith, other)) (ground (arith, other))
    | inl customer ↦ elim (Bool-cases (any (is_saved u.id id) db.favorites)) [
      | inl saved ↦ untouched (ground (arith, customer, saved)) (ground (arith, customer, saved))
      | inr fresh ↦ untouched (ground (arith, customer, fresh)) (ground (arith, customer, fresh))
    ]
  ]

  pub remove_favorite-Change :
      (u : User) (id : ℕ) → Spares (customer_only u >> remove_favorite u.id id)
  unfolding remove_favorite remove
  remove_favorite-Change u id = elim (Bool-cases (is_customer u.role)) [
    | inr other ↦ untouched (ground (arith, other)) (ground (arith, other))
    | inl customer ↦ elim (Bool-cases (any (is_saved u.id id) db.favorites)) [
      | inl saved ↦ untouched (ground (arith, customer, saved)) (ground (arith, customer, saved))
      | inr fresh ↦ untouched (ground (arith, customer, fresh)) (ground (arith, customer, fresh))
    ]
  ]
