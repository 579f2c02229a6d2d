-- ===== src/Users/Defaults.antt =====
-- The default address: a user has one at most.
use mathlib.Core.Path.{subst}
use food_delivery_system.Base.{
  ℕ, ◌≡◌, refl, sym, ◌∙◌, ap, Bool, false, Option, none, some, List, [], ◌∷◌, find, save, or_else,
  count_if, ◌≤◌, ◌⊎◌, ok, find-key, ◌+◌, ◌==◌, ◌>>◌, arith, Bool-cases, Option-cases, inl, inr,
  after_read,
}
use food_delivery_system.Users.Models.{User, Address, UsersDb, address_key}
use food_delivery_system.Users.Redis.{Redis}
use food_delivery_system.Users.Store.{open_at}
use food_delivery_system.Users.Profile.{
  Geocoder, AddressCreate, AddressUpdate, is_default_of, clear_default, clear_if, new_address,
  store_address, revised, is_moved, owned_address, add_address, update_address,
}
use food_delivery_system.Users.Steps.Requests.{owned_address-state}

-- At most one default address of the user.
abbrev pub HasOneDefault : ℕ → List Address → Type 0
HasOneDefault user_id rows = count_if (is_default_of user_id) rows ≤ 1

count-clear_default :
    (user_id : ℕ) (rows : List Address)
    → count_if (is_default_of user_id) (clear_default user_id rows) ≡ 0
unfolding clear_default
count-clear_default user_id [] = refl
count-clear_default user_id (a ∷ rest) = ground (arith, count-clear_default user_id rest)

other-clear_default :
    (user_id other : ℕ) (rows : List Address)
    → (user_id == other) ≡ false
    → count_if (is_default_of other) (clear_default user_id rows)
      ≡ count_if (is_default_of other) rows
unfolding clear_default
other-clear_default user_id other [] apart = refl
other-clear_default user_id other (a ∷ rest) apart =
    ground (arith, apart, other-clear_default user_id other rest apart)

-- A row that is not the default adds none.
count-save_plain :
    (user_id : ℕ) (v : Address) (rows : List Address)
    → is_default_of user_id v ≡ false
    → count_if (is_default_of user_id) (save address_key v rows)
      ≤ count_if (is_default_of user_id) rows
unfolding save
count-save_plain user_id v [] plain = ground (arith, plain)
count-save_plain user_id v (a ∷ rest) plain =
    ground (arith, plain, count-save_plain user_id v rest plain)

count-save :
    (user_id : ℕ) (v : Address) (rows : List Address)
    → count_if (is_default_of user_id) (save address_key v rows)
      ≤ count_if (is_default_of user_id) rows + 1
unfolding save
count-save user_id v [] = ground arith
count-save user_id v (a ∷ rest) = ground (arith, count-save user_id v rest)

-- A row that keeps what the row it covers says of the default.
count-save_kept :
    (user_id : ℕ) (v r : Address) (rows : List Address)
    → find address_key v.id rows ≡ some r
    → is_default_of user_id v ≡ is_default_of user_id r
    → count_if (is_default_of user_id) (save address_key v rows)
      ≡ count_if (is_default_of user_id) rows
unfolding save find
count-save_kept user_id v r [] found same = cc
count-save_kept user_id v r (a ∷ rest) found same = elim (Bool-cases (a.id == v.id)) [
  | inl here ↦ ground (arith, here, found, same)
  | inr there ↦
      ground
        (arith, there, found, count-save_kept user_id v r rest (ground (arith, there, found)) same)
]

module _ (other : ℕ) where
  -- The new default of a user whose other addresses were cleared.
  one-default :
      (u : ℕ) (v : Address) (rows : List Address)
      → v.user_id ≡ u
      → HasOneDefault other rows
      → HasOneDefault other (save address_key v (clear_default u rows))
  one-default u v rows mine h = elim (Bool-cases (u == other)) [
    | inl same ↦
        let u_is : u ≡ other = ground (arith, same) in
        let none_left =
          ap (λ x. count_if (is_default_of other) (clear_default x rows)) u_is
          ∙ count-clear_default other rows in
        ground (arith, none_left, count-save other v (clear_default u rows))
    | inr apart ↦ ground (
      arith,
      other-clear_default u other rows apart,
      h,
      count-save_plain other v (clear_default u rows) (ground (arith, mine, apart)),
    )
  ]

  -- A row that is no default, or is one as before.
  no-default :
      (v a : Address) (rows : List Address)
      → find address_key v.id rows ≡ some a
      → v.user_id ≡ a.user_id
      → (v.is_default ≡ false) ⊎ (v.is_default ≡ a.is_default)
      → HasOneDefault other rows
      → HasOneDefault other (save address_key v rows)
  no-default v a rows found mine kind h = elim kind [
    | inl plain ↦ ground (arith, h, count-save_plain other v rows (ground (arith, plain)))
    | inr kept ↦
        ground (arith, h, count-save_kept other v a rows found (ground (arith, mine, kept)))
  ]

module _ (geocode : Geocoder) (u : User) (other now : ℕ) (db : UsersDb) (redis : Redis) where
  -- A new address leaves every user who had at most one default address with at most one, the caller and
  -- everybody else.
  pub add_address-HasOneDefault :
      (d : AddressCreate)
      → HasOneDefault other db.addresses
      → HasOneDefault other
          (add_address geocode u d (open_at db redis now)).1.session.durable.addresses
  unfolding add_address
  add_address-HasOneDefault d h =
      let row = new_address db.next_address_id u.id d (geocode d.line1 d.city d.postal_code) in
      elim (Bool-cases d.is_default) [
        | inl set ↦
            subst (HasOneDefault other) (ground (arith, set))
              (one-default other u.id row db.addresses refl h)
        | inr plain ↦
            let bound : HasOneDefault other (save address_key row db.addresses) =
              ground (arith, h, count-save_plain other row db.addresses (ground (arith, plain))) in
            subst (HasOneDefault other) (ground (arith, plain)) bound
      ]

  owned-row :
      (id : ℕ) (a : Address)
      → (owned_address u.id id (open_at db redis now)).0 ≡ ok a
      → (find address_key a.id db.addresses ≡ some a) × (a.user_id ≡ u.id)
  owned-row id a e = elim (Option-cases (find address_key id db.addresses)) [
    | inl gone ↦ ground (arith, gone, e)
    | inr (x, found) ↦ elim (Bool-cases (x.user_id == u.id)) [
      | inr not_mine ↦ ground (arith, found, not_mine, e)
      | inl mine ↦
          let same : x ≡ a = ground (arith, found, mine, e) in
          let key = find-key address_key id x db.addresses found in
          (
            ap (λ k. find address_key k db.addresses) (ap (λ z. z.id) (sym same) ∙ key)
                ∙ found
                ∙ ap some same,
            ground (arith, same, mine),
          )
    ]
  ]

  revised-columns :
      (d : AddressUpdate) (a : Address)
      → ((revised geocode d a).id ≡ a.id)
        × (((revised geocode d a).user_id ≡ a.user_id)
            × ((revised geocode d a).is_default ≡ or_else d.is_default a.is_default))
  revised-columns d a = elim (Bool-cases (is_moved d a)) [
    | inl moved ↦ rw moved (refl, (refl, refl))
    | inr stayed ↦ rw stayed (refl, (refl, refl))
  ]

  kept_kind :
      (o : Option Bool) (old : Bool)
      → or_else o false ≡ false
      → (or_else o old ≡ false) ⊎ (or_else o old ≡ old)
  kept_kind none old e = inr refl
  kept_kind (some b) old e = inl e

  -- An edit of an address, whatever comes of it, leaves every user who had at most one default address with at most
  -- one, the caller and everybody else.
  pub update_address-HasOneDefault :
      (id : ℕ) (d : AddressUpdate)
      → HasOneDefault other db.addresses
      → HasOneDefault other
          (update_address geocode u id d (open_at db redis now)).1.session.durable.addresses
  unfolding update_address
  update_address-HasOneDefault id d h =
      after_read (λ s. HasOneDefault other s.session.durable.addresses) (owned_address u.id id)
        (λ a. clear_if (or_else d.is_default false) u.id >> store_address (revised geocode d a))
        (open_at db redis now) (owned_address-state db redis now u id) h
        (λ a e.
          let (found, mine) = owned-row id a e in
          let (id_kept, (user_kept, default_now)) = revised-columns d a in
          elim (Bool-cases (or_else d.is_default false)) [
            | inl set ↦
                subst (HasOneDefault other) (ground (arith, set))
                  (one-default other u.id (revised geocode d a) db.addresses (user_kept ∙ mine) h)
            | inr plain ↦ subst (HasOneDefault other) (ground (arith, plain)) (
                no-default other (revised geocode d a) a db.addresses
                  (ap (λ k. find address_key k db.addresses) id_kept ∙ found) user_kept
                  (subst (λ b. (b ≡ false) ⊎ (b ≡ a.is_default)) (sym default_now)
                    (kept_kind d.is_default a.is_default plain))
                  h)
          ])
