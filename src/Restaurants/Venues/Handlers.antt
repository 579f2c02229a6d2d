-- ===== src/Restaurants/Venues/Handlers.antt =====
-- Each handler does what the relation allows.
use mathlib.Core.Path.{subst}
use food_delivery_system.Base.{
  ℕ, ◌≡◌, refl, sym, ◌∙◌, ◌⊎◌, Bool, true, not, Option, none, some, List, [], ◌∷◌, String, begin,
  find, find-key, ◌==◌, ◌&&◌, arith, Bool-cases, Option-cases, inl, inr,
}
use food_delivery_system.Shared.Identity.{Identity, is_admin}
use food_delivery_system.Restaurants.Models.{
  ApprovalStatus, Restaurant, RestaurantsDb, restaurant_key, owner_key,
}
use food_delivery_system.Restaurants.Service.{
  RestaurantCreate, Registration, RestaurantUpdate, owned_by, is_none_owned, new_restaurant,
  registered_data, registration_name, decided, updated, create_restaurant, register_from_signup,
  set_approval, owned_restaurant, update_restaurant,
}
use food_delivery_system.Restaurants.Venues.{
  latest, IsStored, Change, untouched, registered, changed,
}

owned_by-none :
    (owner_id : ℕ) (rows : List Restaurant)
    → is_none_owned (owned_by owner_id rows) ≡ true
    → find owner_key owner_id rows ≡ none
unfolding owned_by find
owned_by-none owner_id [] e = refl
owned_by-none owner_id (r ∷ rs) e = ground (arith, owned_by-none owner_id rs)

pub create_restaurant-Change :
    (b : Bool) (owner : Identity) (data_in : RestaurantCreate) (db : RestaurantsDb) (now : ℕ)
    → Change b db (create_restaurant owner data_in (begin db now)).1.durable
unfolding create_restaurant latest
create_restaurant-Change b owner data_in db now =
    elim (Bool-cases (is_none_owned (owned_by owner.user_id db.restaurants))) [
      | inl free ↦ rw free (
          registered (new_restaurant db.next_restaurant_id owner.user_id data_in) refl
            (owned_by-none owner.user_id db.restaurants free) refl refl
            (record { rows = refl; events = λ k. ground arith }))
      | inr taken ↦ rw taken (untouched refl refl (λ k. refl))
    ]

-- A change of a row that is found.
found_change :
    (b : Bool) (db db' : RestaurantsDb) (id : ℕ) (r v : Restaurant)
    → find restaurant_key id db.restaurants ≡ some r
    → v.id ≡ r.id
    → r.owner_id ≡ v.owner_id
    → (b ≡ true) ⊎ (v.approval_status ≡ r.approval_status)
    → db'.next_restaurant_id ≡ db.next_restaurant_id
    → IsStored v db db'
    → Change b db db'
found_change b db db' id r v found same owner approval next stored =
    let key : id ≡ v.id = sym (same ∙ find-key restaurant_key id r db.restaurants found) in
    changed r v (subst (λ x. find restaurant_key x db.restaurants ≡ some r) key found) owner
      approval next stored

pub set_approval-Change :
    (id : ℕ) (status : ApprovalStatus) (reason : Option String) (db : RestaurantsDb) (now : ℕ)
    → Change true db (set_approval id status reason (begin db now)).1.durable
unfolding set_approval latest
set_approval-Change id status reason db now =
    elim (Option-cases (find restaurant_key id db.restaurants)) [
      | inl missing ↦ untouched (ground arith) (ground arith) (λ k. ground arith)
      | inr (r, found) ↦
          found_change true db _ id r (decided status reason r) found refl refl (inl refl)
            (ground arith) (record { rows = ground arith; events = λ k. ground arith })
    ]

-- The row that an owner or an admin changes.
pub update_restaurant-Change :
    (b : Bool) (id : ℕ) (user : Identity) (u : RestaurantUpdate) (db : RestaurantsDb) (now : ℕ)
    → Change b db (update_restaurant id user u (begin db now)).1.durable
unfolding update_restaurant owned_restaurant latest
update_restaurant-Change b id user u db now =
    elim (Option-cases (find restaurant_key id db.restaurants)) [
      | inl missing ↦ untouched (ground arith) (ground arith) (λ k. ground arith)
      | inr (r, found) ↦
          elim (Bool-cases (not (r.owner_id == user.user_id) && not (is_admin user.role))) [
            | inl refused ↦ untouched (ground arith) (ground arith) (λ k. ground arith)
            | inr allowed ↦
                found_change b db _ id r (updated u r) found refl refl (inr refl) (ground arith)
                  (record { rows = ground arith; events = λ k. ground arith })
          ]
    ]

pub register_from_signup-Change :
    (b : Bool) (admin : Option String) (p : Registration) (db : RestaurantsDb) (now : ℕ)
    → Change b db (register_from_signup admin p (begin db now)).1.durable
unfolding register_from_signup latest
register_from_signup-Change b admin p db now = elim (Option-cases (registration_name p)) [
  | inl unusable ↦ untouched (ground arith) (ground arith) (λ k. ground arith)
  | inr ((owner_id, name), e) ↦
      elim (Bool-cases (is_none_owned (owned_by owner_id db.restaurants))) [
        | inr taken ↦ untouched (ground arith) (ground arith) (λ k. ground arith)
        | inl free ↦
            registered (new_restaurant db.next_restaurant_id owner_id (registered_data name p.city))
              refl (owned_by-none owner_id db.restaurants free) refl (ground arith)
              (record { rows = ground arith; events = λ k. ground arith })
      ]
]
