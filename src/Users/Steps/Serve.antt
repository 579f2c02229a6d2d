-- ===== src/Users/Steps/Serve.antt =====
-- Every request is one step, and so every history keeps the columns of the accounts unique.
use mathlib.Core.Path.{subst}
use food_delivery_system.Base.{
  ℕ, ◌≡◌, ◌≤◌, ◌<◌, refl, sym, ◌∙◌, Bool, false, some, List, [], ◌∷◌, find, save, save-IsKeyed,
  save-IsKeyed_new, save-IsKeyed_kept, IsKeyed, All, All-save, All-map, All-find, ◌==◌, ◌&&◌, arith,
  inl, inr, after_read, ap, find-key,
}
use food_delivery_system.Users.Models.{User, UsersDb, user_key, email_key, phone_key}
use food_delivery_system.Users.Redis.{Redis}
use food_delivery_system.Users.Jwt.{Claims}
use food_delivery_system.Users.Store.{open_at}
use food_delivery_system.Users.Accounts.{
  is_approved, register_user, bootstrap_admin, reset_admin_password, apply_restaurant_decision,
}
use food_delivery_system.Users.Profile.{update_profile, add_address, update_address}
use food_delivery_system.Users.Sessions.{current_user, refresh_tokens, change_password}
use food_delivery_system.Users.Requests.{
  World, Own, set_password, set_profile, new_address, edit_address, drop_address, save_restaurant,
  drop_restaurant, Request, register, bootstrap, reset_admin, decision, refresh, sign_out, forgot,
  reset, own, serve_own, act, Stores, serve, serve_all,
}
use food_delivery_system.Users.Steps.{IsSuccessor, Change, untouched, registered, changed}
use food_delivery_system.Users.Steps.Handlers.{
  reset_admin_password-Change, apply_restaurant_decision-Change, reset_password-Change,
  change_password-Change, update_profile-Change,
}
use food_delivery_system.Users.Steps.Registrations.{register_user-Change, bootstrap_admin-Change}
use food_delivery_system.Users.Steps.Requests.{
  Spares, dropped, IsHolder, current_user-state, current_user-IsHolder, add_address-Change,
  update_address-Change, delete_address-Change, add-Change, remove_favorite-Change,
}
use food_delivery_system.Users.Steps.Tokens.{
  refresh_tokens-Change, logout-Change, forgot_password-Change,
}

-- Whether a request is the approval of an account.
unfoldable pub grants : Request → ℕ → Bool
grants (decision owner_id status) id = is_approved status && (owner_id == id)
grants _ id = false

module _ (w : World) (db : UsersDb) (redis : Redis) (now : ℕ) where
  pub serve_own-Change :
      (granted : ℕ → Bool) (u : User)
      → find user_key u.id db.users ≡ some u
      → (what : Own) → Spares granted db redis now (serve_own w u what)
  unfolding serve_own
  serve_own-Change granted u found (set_password salt ids current new) =
      dropped granted db redis now (change_password w.hashing salt ids u current new)
        (change_password-Change granted db redis now w.hashing salt ids u current new found)
  serve_own-Change granted u found (set_profile lost_race d) =
      dropped granted db redis now (update_profile lost_race u d)
        (update_profile-Change granted db redis now lost_race u d found)
  serve_own-Change granted u found (new_address d) =
      dropped granted db redis now (add_address w.geocode u d)
        (add_address-Change granted db redis now w.geocode u d)
  serve_own-Change granted u found (edit_address id d) =
      dropped granted db redis now (update_address w.geocode u id d)
        (update_address-Change granted db redis now w.geocode u id d)
  serve_own-Change granted u found (drop_address id) =
      delete_address-Change granted db redis now u id
  serve_own-Change granted u found (save_restaurant id) = add-Change granted db redis now u id
  serve_own-Change granted u found (drop_restaurant id) =
      remove_favorite-Change granted db redis now u id

  own_row :
      (token : ℕ) (c : Claims) (u : User)
      → IsHolder w.jwt db redis now token c u
      → find user_key u.id db.users ≡ some u
  own_row token c u h =
      ap (λ k. find user_key k db.users) (find-key user_key c.sub u db.users h.row) ∙ h.row

  pub act-Change :
      (r : Request) → IsKeyed user_key db.users → Spares (grants r) db redis now (act w r)
  unfolding act grants
  act-Change (register salt lost_race d) keyed =
      dropped (λ _. false) db redis now (register_user w.hashing salt lost_race d)
        (register_user-Change (λ _. false) db redis now w.hashing salt lost_race d)
  act-Change (bootstrap salt lost_race email password) keyed =
      dropped (λ _. false) db redis now (bootstrap_admin w.hashing salt lost_race email password)
        (bootstrap_admin-Change (λ _. false) db redis now w.hashing salt lost_race email password)
  act-Change (reset_admin salt email old new) keyed =
      dropped (λ _. false) db redis now (reset_admin_password w.hashing salt email old new)
        (reset_admin_password-Change (λ _. false) db redis now w.hashing salt email old new keyed)
  act-Change (decision owner_id status) keyed =
      dropped (grants (decision owner_id status)) db redis now
        (apply_restaurant_decision owner_id status)
        (apply_restaurant_decision-Change (grants (decision owner_id status)) db redis now owner_id
          status (λ e. ground (arith, e)))
  act-Change (refresh ids token) keyed =
      dropped (λ _. false) db redis now (refresh_tokens w.jwt ids token)
        (refresh_tokens-Change (λ _. false) db redis now w.jwt ids token)
  act-Change (sign_out token access) keyed =
      logout-Change (λ _. false) db redis now w.jwt token access
  act-Change (forgot digest email) keyed =
      forgot_password-Change (λ _. false) db redis now digest email
  act-Change (reset salt digest password) keyed =
      reset_password-Change (λ _. false) db redis now w.hashing salt digest password
  act-Change (own token what) keyed =
      after_read (λ s. Change (grants (own token what)) db s.session.durable)
        (current_user w.jwt token) (λ u. serve_own w u what) (open_at db redis now)
        (current_user-state w.jwt db redis now token) (untouched refl refl)
        (λ u let_in.
          let (c, held) = current_user-IsHolder w.jwt db redis now token u let_in in
          serve_own-Change (grants (own token what)) u (own_row token c u held.1) what)

-- The ids, the emails and the phones are unique, and an id is never given twice.
pub record IsUnique (db : UsersDb) : Type 0 where
  pub ids : IsKeyed user_key db.users
  pub emails : IsKeyed email_key db.users
  pub phones : IsKeyed phone_key db.users
  pub fresh : All (λ u. u.id < db.next_user_id) db.users

module _ (granted : ℕ → Bool) (a : UsersDb) where
  saved-IsUnique :
      (v : User) (users : List User) (next : ℕ)
      → users ≡ save user_key v a.users
      → IsUnique a
      → a.next_user_id ≤ next
      → v.id < next
      → IsKeyed email_key (save user_key v a.users)
      → IsKeyed phone_key (save user_key v a.users)
      → (b : UsersDb) → b.users ≡ users
      → b.next_user_id ≡ next
      → IsUnique b
  saved-IsUnique v users next e h more new emails phones b same later =
      let rows = same ∙ e in
      record {
        ids = subst (IsKeyed user_key) (sym rows) (save-IsKeyed user_key v a.users h.ids);
        emails = subst (IsKeyed email_key) (sym rows) emails;
        phones = subst (IsKeyed phone_key) (sym rows) phones;
        fresh =
            subst (λ n. All (λ u. u.id < n) b.users) (sym later)
              (subst (All (λ u. u.id < next)) (sym rows) (
                All-save user_key (λ u. u.id < next) v a.users
                  (All-map (λ u lt. omega (arith, lt, more)) a.users h.fresh) new));
      }

  phones-IsKeyed :
      (r v : User)
      → IsSuccessor granted a r v
      → IsUnique a
      → IsKeyed phone_key (save user_key v a.users)
  phones-IsKeyed r v s h = elim s.phone [
    | inl same ↦ save-IsKeyed_kept user_key phone_key v r a.users h.phones s.found same
    | inr free ↦ save-IsKeyed_new user_key phone_key v a.users h.phones free
  ]

  successor_id : (r v : User) → IsSuccessor granted a r v → IsUnique a → v.id < a.next_user_id
  successor_id r v s h =
      let same = find-key user_key v.id r a.users s.found in
      let lt = All-find user_key (λ u. u.id < a.next_user_id) v.id r a.users h.fresh s.found in
      omega (arith, same, lt)

  pub Change-IsUnique : (b : UsersDb) → Change granted a b → IsUnique a → IsUnique b
  Change-IsUnique b (untouched rows next) h = record {
    ids = subst (IsKeyed user_key) (sym rows) h.ids;
    emails = subst (IsKeyed email_key) (sym rows) h.emails;
    phones = subst (IsKeyed phone_key) (sym rows) h.phones;
    fresh =
        subst (λ n. All (λ u. u.id < n) b.users) (sym next)
          (subst (All (λ u. u.id < a.next_user_id)) (sym rows) h.fresh);
  }
  Change-IsUnique b (registered v s rows next) h =
      saved-IsUnique v b.users b.next_user_id rows h (omega (arith, next))
        (omega (arith, next, s.id)) (save-IsKeyed_new user_key email_key v a.users h.emails s.email)
        (save-IsKeyed_new user_key phone_key v a.users h.phones s.phone) b refl refl
  Change-IsUnique b (changed r v s rows next) h =
      saved-IsUnique v b.users b.next_user_id rows h (omega (arith, next))
        (omega (arith, next, successor_id r v s h))
        (save-IsKeyed_kept user_key email_key v r a.users h.emails s.found s.email)
        (phones-IsKeyed r v s h) b refl refl

-- Over any history of requests, whatever comes of each, the ids, the emails and the phones of the accounts stay
-- unique and every id stays below the next one.
pub serve_all-IsUnique :
    (w : World) (history : List (ℕ × Request)) (s : Stores)
    → IsUnique s.db
    → IsUnique (serve_all w history s).db
unfolding serve serve_all
serve_all-IsUnique w [] s h = h
serve_all-IsUnique w ((now, r) ∷ rest) s h =
    serve_all-IsUnique w rest (serve w now r s) (
      Change-IsUnique (grants r) s.db (serve w now r s).db (act-Change w s.db s.redis now r h.ids)
        h)
