-- ===== src/Users/Steps/Fate.antt =====
-- What becomes of one account over a history of requests: its session generation never falls, and only an
-- approval lets it in.
use food_delivery_system.Base.{
  ℕ, ◌≡◌, ◌≤◌, ◌<◌, refl, sym, ◌∙◌, ap, Bool, false, some, List, [], ◌∷◌, find, find-save, find-key,
  save, All, All-find, ◌==◌, arith, Bool-cases, inl, inr,
}
use food_delivery_system.Users.Models.{User, UsersDb, user_key}
use food_delivery_system.Users.Requests.{World, Request, Stores, serve, serve_all}
use food_delivery_system.Users.Steps.{Change, untouched, registered, changed}
use food_delivery_system.Users.Steps.Serve.{grants, act-Change, IsUnique, Change-IsUnique}

-- A later row of an account, whose activity is kept where `Quiet`.
pub record IsLater (Quiet : Type 0) (u v : User) : Type 0 where
  pub email : u.email ≡ v.email
  pub generation : u.session_generation ≤ v.session_generation
  pub active : Quiet → v.is_active ≡ u.is_active

abbrev LaterRow : Type 0 → ℕ → User → UsersDb → Type 0
LaterRow Quiet k u b = (v : User) × ((find user_key k b.users ≡ some v) × IsLater Quiet u v)

module _ (granted : ℕ → Bool) (a : UsersDb) where
  unchanged_row :
      (k : ℕ) (u : User) (b : UsersDb)
      → find user_key k b.users ≡ some u
      → LaterRow (granted k ≡ false) k u b
  unchanged_row k u b e =
      (u, (e, record { email = refl; generation = omega arith; active = λ _. refl }))

  after_save :
      (k : ℕ) (u v : User) (b : UsersDb)
      → b.users ≡ save user_key v a.users
      → (v.id == k) ≡ false
      → find user_key k a.users ≡ some u
      → find user_key k b.users ≡ some u
  after_save k u v b rows other e =
      ap (find user_key k) rows ∙ ground (arith, find-save user_key k v a.users, other, e)

  pub Change-row :
      (k : ℕ) (u : User) (b : UsersDb)
      → Change granted a b
      → IsUnique a
      → find user_key k a.users ≡ some u
      → LaterRow (granted k ≡ false) k u b
  Change-row k u b (untouched rows next) h e = unchanged_row k u b (ap (find user_key k) rows ∙ e)
  Change-row k u b (registered v s rows next) h e =
      let old = All-find user_key (λ r. r.id < a.next_user_id) k u a.users h.fresh e in
      let same = find-key user_key k u a.users e in
      unchanged_row k u b (after_save k u v b rows (ground (arith, old, same, s.id)) e)
  Change-row k u b (changed r v s rows next) h e = elim (Bool-cases (v.id == k)) [
    | inr other ↦ unchanged_row k u b (after_save k u v b rows other e)
    | inl here ↦
        let same : v.id ≡ k = ground (arith, here) in
        let row : some r ≡ some u = sym s.found ∙ ap (λ i. find user_key i a.users) same ∙ e in
        (
          v,
          (
            ap (find user_key k) rows ∙ ground (arith, find-save user_key k v a.users, here),
            record {
              email = ground (arith, row, s.email);
              generation = ground (arith, row, s.generation);
              active = λ quiet. elim s.active [
                | inl let_in ↦ ground (arith, let_in, same, quiet)
                | inr kept ↦ ground (arith, row, kept)
              ];
            },
          ),
        )
  ]

-- No request of a history approves the account.
abbrev pub NoApproval : ℕ → List (ℕ × Request) → Type 0
NoApproval k history = All (λ e. grants e.1 k ≡ false) history

module _ (w : World) where
  pub serve_all-row :
      (k : ℕ) (u : User) (history : List (ℕ × Request)) (s : Stores)
      → IsUnique s.db
      → find user_key k s.db.users ≡ some u
      → LaterRow (NoApproval k history) k u (serve_all w history s).db
  unfolding serve serve_all
  serve_all-row k u [] s h e =
      (u, (e, record { email = refl; generation = omega arith; active = λ _. refl }))
  serve_all-row k u ((now, r) ∷ rest) s h e =
      let step = act-Change w s.db s.redis now r h.ids in
      let (v, (found, later)) = Change-row (grants r) s.db k u (serve w now r s).db step h e in
      let (x, (there, last)) =
        serve_all-row k v rest (serve w now r s)
          (Change-IsUnique (grants r) s.db (serve w now r s).db step h) found in
      (
        x,
        (
          there,
          record {
            email = later.email ∙ last.email;
            generation = omega (arith, later.generation, last.generation);
            active = λ quiet. last.active quiet.1 ∙ later.active quiet.0;
          },
        ),
      )
