-- ===== src/Users/Steps/Registrations.antt =====
-- A registration, and the first administrator: what the relation calls registered, or nothing.
use food_delivery_system.Base.{
  ℕ, ◌≡◌, refl, Bool, true, false, none, List, [], ◌∷◌, find, any, ◌==◌, ◌||◌, arith, Bool-cases,
  Option-cases, inl, inr,
}
use food_delivery_system.Shared.Identity.{is_admin}
use food_delivery_system.Users.Models.{User, UsersDb, email_key, phone_key}
use food_delivery_system.Users.Redis.{Redis}
use food_delivery_system.Users.Store.{open_at}
use food_delivery_system.Users.Accounts.{
  Hashing, UserRegister, first_where, new_user, new_admin, register_user, bootstrap_admin,
}
use food_delivery_system.Users.Steps.{Change, untouched, registered}

first_where-free :
    (email phone : ℕ) (rows : List User)
    → first_where (λ u. u.email == email || u.phone == phone) rows ≡ none
    → (find email_key email rows ≡ none) × (find phone_key phone rows ≡ none)
unfolding first_where find
first_where-free email phone [] e = (refl, refl)
first_where-free email phone (u ∷ us) e = (
  ground (arith, e, first_where-free email phone us),
  ground (arith, e, first_where-free email phone us),
)

any-free :
    (email : ℕ) (rows : List User)
    → any (λ u. u.email == email || u.phone == email) rows ≡ false
    → (find email_key email rows ≡ none) × (find phone_key email rows ≡ none)
unfolding any find
any-free email [] e = (refl, refl)
any-free email (u ∷ us) e =
    (ground (arith, e, any-free email us), ground (arith, e, any-free email us))

module _ (granted : ℕ → Bool) (db : UsersDb) (redis : Redis) (now : ℕ) where
  pub register_user-Change :
      (h : Hashing) (salt : ℕ) (lost_race : Bool) (d : UserRegister)
      → Change granted db
          (register_user h salt lost_race d (open_at db redis now)).1.session.durable
  unfolding register_user
  register_user-Change h salt true d = untouched (ground arith) (ground arith)
  register_user-Change h salt false d =
      elim (Option-cases (first_where (λ u. u.email == d.email || u.phone == d.phone) db.users)) [
        | inr (u, taken) ↦ untouched (ground arith) (ground arith)
        | inl free ↦
            let apart = first_where-free d.email d.phone db.users free in
            registered (new_user db.next_user_id (h.hash salt d.password) d)
              (record {
                id = refl;
                email = apart.0;
                phone = apart.1;
                waits = λ e. ground (arith, e);
              })
              (ground (arith, free)) (ground (arith, free))
      ]

  pub bootstrap_admin-Change :
      (h : Hashing) (salt : ℕ) (lost_race : Bool) (email password : ℕ)
      → Change granted db
          (bootstrap_admin h salt lost_race email password (open_at db redis now)).1.session.durable
  unfolding bootstrap_admin
  bootstrap_admin-Change h salt true email password = untouched (ground arith) (ground arith)
  bootstrap_admin-Change h salt false email password =
      elim (Bool-cases (any (λ u. is_admin u.role) db.users)) [
        | inl exists ↦ untouched (ground arith) (ground arith)
        | inr first ↦ elim (Bool-cases (any (λ u. u.email == email || u.phone == email) db.users)) [
          | inl taken ↦ untouched (ground arith) (ground arith)
          | inr free ↦
              let apart = any-free email db.users free in
              registered (new_admin db.next_user_id (h.hash salt password) email)
                (record { id = refl; email = apart.0; phone = apart.1; waits = λ e. cc })
                (ground (arith, first, free)) (ground (arith, first, free))
        ]
      ]
