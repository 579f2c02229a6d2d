-- ===== src/Users/Requests.antt =====
-- Everything that changes the users database or its keys in Redis, as requests that are served one after the
-- other. Each comes at a time, in a session of its own.
use food_delivery_system.Base.{ℕ, Bool, Option, List, [], ◌∷◌, ◌>>=◌, ◌>>◌, pure}
use food_delivery_system.Users.Models.{ApprovalStatus, User, UsersDb}
use food_delivery_system.Users.Redis.{Redis}
use food_delivery_system.Users.Jwt.{Jwt}
use food_delivery_system.Users.Store.{Act, open_at}
use food_delivery_system.Users.Accounts.{
  Hashing, UserRegister, register_user, apply_restaurant_decision, bootstrap_admin,
  reset_admin_password,
}
use food_delivery_system.Users.Sessions.{
  TokenIds, refresh_tokens, logout, current_user, reset_password, change_password,
}
use food_delivery_system.Users.Profile.{
  Geocoder, UserUpdate, AddressCreate, AddressUpdate, update_profile, add_address, update_address,
  delete_address,
}
use food_delivery_system.Users.Favorites.{customer_only, add, remove_favorite}
use food_delivery_system.Users.Routes.{forgot_password}

-- What the handlers take from libraries and from Google.
pub record World : Type 0 where
  pub hashing : Hashing
  pub jwt : Jwt
  pub geocode : Geocoder

-- What a signed-in user asks for, with the access token that is presented.
pub data Own : Type 0 where
  set_password : ℕ → TokenIds → ℕ → ℕ → Own
  set_profile : Bool → UserUpdate → Own
  new_address : AddressCreate → Own
  edit_address : ℕ → AddressUpdate → Own
  drop_address : ℕ → Own
  save_restaurant : ℕ → Own
  drop_restaurant : ℕ → Own

pub data Request : Type 0 where
  register : ℕ → Bool → UserRegister → Request
  bootstrap : ℕ → Bool → ℕ → ℕ → Request
  reset_admin : ℕ → ℕ → ℕ → ℕ → Request
  decision : ℕ → ApprovalStatus → Request
  refresh : TokenIds → ℕ → Request
  sign_out : ℕ → Option ℕ → Request
  forgot : ℕ → ℕ → Request
  reset : ℕ → ℕ → ℕ → Request
  own : ℕ → Own → Request

abbrev pub drop_result : {A : Type 0} → Act A → Act (Unit {0})
drop_result m = m >>= λ _. pure tt

unfoldable pub serve_own : World → User → Own → Act (Unit {0})
serve_own w u (set_password salt ids current new) =
    drop_result (change_password w.hashing salt ids u current new)
serve_own w u (set_profile lost_race d) = drop_result (update_profile lost_race u d)
serve_own w u (new_address d) = drop_result (add_address w.geocode u d)
serve_own w u (edit_address id d) = drop_result (update_address w.geocode u id d)
serve_own w u (drop_address id) = delete_address u id
serve_own w u (save_restaurant id) = customer_only u >> add u.id id
serve_own w u (drop_restaurant id) = customer_only u >> remove_favorite u.id id

unfoldable pub act : World → Request → Act (Unit {0})
act w (register salt lost_race d) = drop_result (register_user w.hashing salt lost_race d)
act w (bootstrap salt lost_race email password) =
    drop_result (bootstrap_admin w.hashing salt lost_race email password)
act w (reset_admin salt email old new) =
    drop_result (reset_admin_password w.hashing salt email old new)
act w (decision owner_id status) = drop_result (apply_restaurant_decision owner_id status)
act w (refresh ids token) = drop_result (refresh_tokens w.jwt ids token)
act w (sign_out token access) = logout w.jwt token access
act w (forgot digest email) = forgot_password digest email
act w (reset salt digest password) = reset_password w.hashing salt digest password
act w (own token what) = current_user w.jwt token >>= λ u. serve_own w u what

pub record Stores : Type 0 where
  pub db : UsersDb
  pub redis : Redis

unfoldable pub serve : World → ℕ → Request → Stores → Stores
serve w now r s =
    let after = (act w r (open_at s.db s.redis now)).1 in
    record { db = after.session.durable; redis = after.redis }

unfoldable pub serve_all : World → List (ℕ × Request) → Stores → Stores
serve_all w [] s = s
serve_all w ((now, r) ∷ rest) s = serve_all w rest (serve w now r s)
