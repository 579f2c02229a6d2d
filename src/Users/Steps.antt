-- ===== src/Users/Steps.antt =====
-- What a request may do to the accounts, as a relation of databases.
pub mod Registrations
pub mod Handlers
pub mod Requests
pub mod Tokens
pub mod Serve
pub mod Fate
pub mod Blocklist
pub mod OwnBlocklist
use food_delivery_system.Base.{
  ℕ, suc, ◌≡◌, ◌≤◌, ◌⊎◌, Bool, true, false, Option, none, some, find, save,
}
use food_delivery_system.Users.Models.{User, UsersDb, user_key, email_key, phone_key}
use food_delivery_system.Users.Accounts.{is_restaurant}

-- A row that takes another's place: the same account, under a phone that is its own or nobody's, in no
-- earlier session generation, and let in only by a decision.
pub record IsSuccessor (granted : ℕ → Bool) (a : UsersDb) (r v : User) : Type 0 where
  pub found : find user_key v.id a.users ≡ some r
  pub email : r.email ≡ v.email
  pub role : r.role ≡ v.role
  pub phone : (r.phone ≡ v.phone) ⊎ (find phone_key v.phone a.users ≡ none)
  pub generation : r.session_generation ≤ v.session_generation
  pub active : (granted v.id ≡ true) ⊎ (v.is_active ≡ r.is_active)

-- A new account, under an email and a phone that nobody has; a restaurant's is not active.
pub record IsApplicant (a : UsersDb) (v : User) : Type 0 where
  pub id : v.id ≡ a.next_user_id
  pub email : find email_key v.email a.users ≡ none
  pub phone : find phone_key v.phone a.users ≡ none
  pub waits : is_restaurant v.role ≡ true → v.is_active ≡ false

pub data Change (granted : ℕ → Bool) (a b : UsersDb) : Type 0 where
  untouched : b.users ≡ a.users → b.next_user_id ≡ a.next_user_id → Change granted a b
  registered :
      (v : User)
      → IsApplicant a v
      → b.users ≡ save user_key v a.users
      → b.next_user_id ≡ suc a.next_user_id
      → Change granted a b
  changed :
      (r v : User)
      → IsSuccessor granted a r v
      → b.users ≡ save user_key v a.users
      → b.next_user_id ≡ a.next_user_id
      → Change granted a b
