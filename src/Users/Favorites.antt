-- ===== src/Users/Favorites.antt =====
-- services/users/app/favorites.py. The unique constraint on a user and a restaurant answers at the commit.
use food_delivery_system.Base.{
  ℕ, suc, Bool, true, false, not, List, [], ◌∷◌, pure, raise_if, ◌>>=◌, ◌>>◌, any, save, select,
  map, ltb, ◌==◌, if◌then◌else◌, ◌&&◌,
}
use food_delivery_system.Shared.Identity.{Role}
use food_delivery_system.Users.Models.{
  User, Favorite, UsersDb, favorite_not_found, insufficient_permissions, favorite_key,
}
use food_delivery_system.Users.Store.{Act, get_db, set_db, commit_db, rollback_db}

abbrev pub is_saved : ℕ → ℕ → Favorite → Bool
is_saved user_id restaurant_id f = f.user_id == user_id && f.restaurant_id == restaurant_id

abbrev pub new_favorite : ℕ → ℕ → ℕ → Favorite
new_favorite id user_id restaurant_id = record {
  id = id;
  user_id = user_id;
  restaurant_id = restaurant_id;
}

abbrev pub insert_favorite : ℕ → ℕ → UsersDb → UsersDb
insert_favorite user_id restaurant_id db = record db {
  favorites =
      save favorite_key (new_favorite db.next_favorite_id user_id restaurant_id) db.favorites;
  next_favorite_id = suc db.next_favorite_id;
}

abbrev pub is_customer : Role → Bool
is_customer Role.customer = true
is_customer _ = false

-- `_customer`
abbrev pub customer_only : User → Act (Unit {0})
customer_only u = raise_if (not (is_customer u.role)) insufficient_permissions

-- The commit, or the rollback where the constraint is violated.
abbrev pub commit_if_new : Bool → Act (Unit {0})
commit_if_new true = rollback_db
commit_if_new false = commit_db

unfoldable pub add : ℕ → ℕ → Act (Unit {0})
add user_id restaurant_id = do
  violated ← get_db (λ db. any (is_saved user_id restaurant_id) db.favorites)
  set_db (insert_favorite user_id restaurant_id)
  commit_if_new violated

unfoldable pub remove : ℕ → ℕ → Act Bool
remove user_id restaurant_id = do
  removed ← get_db (λ db. any (is_saved user_id restaurant_id) db.favorites)
  set_db (λ db. record db {
    favorites = select (λ f. not (is_saved user_id restaurant_id f)) db.favorites;
  })
  commit_db
  pure removed

-- `remove_favorite`
unfoldable pub remove_favorite : ℕ → ℕ → Act (Unit {0})
remove_favorite user_id restaurant_id = do
  removed ← remove user_id restaurant_id
  raise_if (not removed) favorite_not_found

-- `order_by(Favorite.id.desc())`
abbrev pub insert_newest : Favorite → List Favorite → List Favorite
insert_newest f [] = f ∷ []
insert_newest f (g ∷ gs) = if ltb f.id g.id then g ∷ insert_newest f gs else f ∷ g ∷ gs

abbrev pub newest_first : List Favorite → List Favorite
newest_first [] = []
newest_first (f ∷ fs) = insert_newest f (newest_first fs)

unfoldable pub restaurant_ids : ℕ → List Favorite → List ℕ
restaurant_ids user_id rows =
    map (λ f. f.restaurant_id) (newest_first (select (λ f. f.user_id == user_id) rows))
