-- ===== src/Restaurants/Venues/Histories.antt =====
-- What holds of the restaurants over any history.
use food_delivery_system.Base.{
  ℕ, suc, ◌≡◌, ap, ◌<◌, sym, ◌∙◌, Bool, true, false, some, List, [], ◌∷◌, begin, All, All-map,
  All-save, All-find, find, find-save, find-key, IsKeyed, save-IsKeyed, save-IsKeyed_new,
  save-IsKeyed_kept, ◌==◌, if◌then◌else◌, arith, Bool-cases, inl, inr,
}
use food_delivery_system.Restaurants.Models.{
  Restaurant, restaurant_changed, RestaurantsDb, restaurant_key, owner_key,
}
use food_delivery_system.Restaurants.Service.{is_approved}
use food_delivery_system.Restaurants.Requests.{
  World, Request, create, register, decide, update, menu_add_category, menu_update_category,
  menu_delete_category, menu_add_item, menu_update_item, menu_delete_item, validate, release,
  review, revise, withdraw, reply, order_event, is_decision, serve, serve_all,
}
use food_delivery_system.Restaurants.Venues.{
  latest, IsStored, Change, untouched, registered, changed,
}
use food_delivery_system.Restaurants.Venues.Handlers.{
  create_restaurant-Change, register_from_signup-Change, set_approval-Change,
  update_restaurant-Change,
}
use food_delivery_system.Restaurants.Venues.Others.{
  add_category-Change, update_category-Change, delete_category-Change, add_item-Change,
  update_item-Change, delete_item-Change, validate_order-Change, release_stock-Change,
  create_review-Change, update_review-Change, delete_review-Change, reply_to_review-Change,
  apply_order_event-Change,
}

-- Every request does to the restaurants what the relation allows: nothing, one new venue that is pending
-- for an owner who had none, or one row changed with its owner kept, its approval only by a decision.
pub serve-Change :
    (w : World) (r : Request) (db : RestaurantsDb) (now : ℕ)
    → Change (is_decision r) db (serve w r (begin db now)).durable
unfolding serve
serve-Change w (create owner data_in) db now = create_restaurant-Change false owner data_in db now
serve-Change w (register p) db now = register_from_signup-Change false w.admin p db now
serve-Change w (decide id status reason) db now = set_approval-Change id status reason db now
serve-Change w (update id user u) db now = update_restaurant-Change false id user u db now
serve-Change w (menu_add_category user id name sort_order) db now =
    add_category-Change false db now user id name sort_order
serve-Change w (menu_update_category user id c name sort_order) db now =
    update_category-Change false db now user id c name sort_order
serve-Change w (menu_delete_category user id c) db now =
    delete_category-Change false db now user id c
serve-Change w (menu_add_item user id data_in) db now = add_item-Change false db now user id data_in
serve-Change w (menu_update_item user id i u) db now = update_item-Change false db now user id i u
serve-Change w (menu_delete_item user id i) db now = delete_item-Change false db now user id i
serve-Change w (validate id body) db now =
    validate_order-Change false db now w.geometry w.clock id body
serve-Change w (release id items) db now = release_stock-Change false db now id items
serve-Change w (review caller id rating comment) db now =
    create_review-Change false db now caller id rating comment
serve-Change w (revise caller id rating comment comment_set) db now =
    update_review-Change false db now caller id rating comment comment_set
serve-Change w (withdraw caller id) db now = delete_review-Change false db now caller id
serve-Change w (reply caller id text) db now = reply_to_review-Change false db now caller id text
serve-Change w (order_event e) db now = apply_order_event-Change false db now e

-- The venues are told apart by their ids and by their owners, ids are not given twice, and the newest event
-- of each venue tells its row.
pub record IsListed (db : RestaurantsDb) : Type 0 where
  pub keyed : IsKeyed restaurant_key db.restaurants
  pub fresh : All (λ r. r.id < db.next_restaurant_id) db.restaurants
  pub single : IsKeyed owner_key db.restaurants
  pub told :
      (k : ℕ) (r : Restaurant)
      → find restaurant_key k db.restaurants ≡ some r
      → latest k db.outbox
        ≡ some (restaurant_changed r.id r.owner_id r.name r.is_open r.approval_status)

stored-told :
    (v : Restaurant) (a b : RestaurantsDb)
    → IsStored v a b
    → ((k : ℕ) (r : Restaurant)
        → find restaurant_key k a.restaurants ≡ some r
        → latest k a.outbox
          ≡ some (restaurant_changed r.id r.owner_id r.name r.is_open r.approval_status))
    → (k : ℕ) (r : Restaurant) → find restaurant_key k b.restaurants ≡ some r
    → latest k b.outbox
      ≡ some (restaurant_changed r.id r.owner_id r.name r.is_open r.approval_status)
stored-told v a b s h k r e =
    let split : (if v.id == k then some v else find restaurant_key k a.restaurants) ≡ some r =
      sym (find-save restaurant_key k v a.restaurants)
      ∙ (ap (find restaurant_key k) (sym s.rows) ∙ e) in
    elim (Bool-cases (v.id == k)) [
      | inl own ↦
          let same : v ≡ r = ground (arith, own, split) in ground (arith, own, s.events k, same)
      | inr other ↦ ground (arith, other, s.events k, h k r (ground (arith, other, split)))
    ]

Change-IsListed : {d : Bool} {a b : RestaurantsDb} → Change d a b → IsListed a → IsListed b
Change-IsListed (untouched rows next events) h = record {
  keyed = simp rows h.keyed;
  fresh = simp (rows, next) h.fresh;
  single = simp rows h.single;
  told = λ k r e. events k ∙ h.told k r (ap (find restaurant_key k) (sym rows) ∙ e);
}
Change-IsListed {a = a} {b = b} (registered v id free status next stored) h = record {
  keyed = simp stored.rows (save-IsKeyed restaurant_key v a.restaurants h.keyed);
  fresh =
      simp (stored.rows, next)
        (All-save restaurant_key (λ r. r.id < suc a.next_restaurant_id) v a.restaurants
          (All-map (λ r less. omega arith) a.restaurants h.fresh) (omega arith));
  single =
      simp stored.rows (save-IsKeyed_new restaurant_key owner_key v a.restaurants h.single free);
  told = stored-told v a b stored h.told;
}
Change-IsListed {a = a} {b = b} (changed r v found owner approval next stored) h = record {
  keyed = simp stored.rows (save-IsKeyed restaurant_key v a.restaurants h.keyed);
  fresh =
      simp (stored.rows, next)
        (All-save restaurant_key (λ x. x.id < a.next_restaurant_id) v a.restaurants h.fresh
          (simp (sym (find-key restaurant_key v.id r a.restaurants found)) (
            All-find restaurant_key (λ x. x.id < a.next_restaurant_id) v.id r a.restaurants h.fresh
              found)));
  single =
      simp stored.rows
        (save-IsKeyed_kept restaurant_key owner_key v r a.restaurants h.single found owner);
  told = stored-told v a b stored h.told;
}

-- Over any history of requests, no two venues share an id or an owner, no id is given twice, and the
-- newest event of each venue in the outbox tells its owner, name, opening and approval as they are.
pub serve_all-IsListed :
    (w : World) (history : List (ℕ × Request)) (db : RestaurantsDb)
    → IsListed db
    → IsListed (serve_all w history db)
unfolding serve_all
serve_all-IsListed w [] db h = h
serve_all-IsListed w ((now, r) ∷ rest) db h =
    serve_all-IsListed w rest (serve w r (begin db now)).durable
      (Change-IsListed (serve-Change w r db now) h)

-- A venue is approved.
abbrev pub IsApprovedIn : RestaurantsDb → ℕ → Type 0
IsApprovedIn db k =
    (r : Restaurant) × (find restaurant_key k db.restaurants ≡ some r)
    × (is_approved r.approval_status ≡ true)

stored-approved :
    (v : Restaurant) (a b : RestaurantsDb) (k : ℕ)
    → IsStored v a b
    → (v.id ≡ k → is_approved v.approval_status ≡ true → IsApprovedIn a k)
    → IsApprovedIn b k
    → IsApprovedIn a k
stored-approved v a b k s new (r, found, approved) =
    let split : (if v.id == k then some v else find restaurant_key k a.restaurants) ≡ some r =
      sym (find-save restaurant_key k v a.restaurants)
      ∙ (ap (find restaurant_key k) (sym s.rows) ∙ found) in
    elim (Bool-cases (v.id == k)) [
      | inl own ↦
          let same : v ≡ r = ground (arith, own, split) in
          new (ground (arith, own)) (simp same approved)
      | inr other ↦ (r, ground (arith, other, split), approved)
    ]

Change-unapproved :
    {a b : RestaurantsDb} (k : ℕ) → Change false a b → IsApprovedIn b k → IsApprovedIn a k
Change-unapproved k (untouched rows next events) (r, found, approved) =
    (r, ap (find restaurant_key k) (sym rows) ∙ found, approved)
Change-unapproved {a} {b} k (registered v id free status next stored) y =
    stored-approved v a b k stored (λ own approved. ground (arith, status, approved)) y
Change-unapproved {a} {b} k (changed r v found owner approval next stored) y =
    stored-approved v a b k stored
      (λ own approved. (
        r,
        ground (arith, own, found),
        elim approval [
          | inl decided ↦ ground (arith, decided)
          | inr kept ↦ ground (arith, kept, approved)
        ],
      ))
      y

-- Over any history in which no approval is decided, a venue that is approved at the end was approved at
-- the start: neither a registration nor an owner's update approves one.
pub serve_all-unapproved :
    (w : World) (history : List (ℕ × Request)) (db : RestaurantsDb) (k : ℕ)
    → All (λ x. is_decision x.1 ≡ false) history
    → IsApprovedIn (serve_all w history db) k
    → IsApprovedIn db k
unfolding serve_all
serve_all-unapproved w [] db k ordinary y = y
serve_all-unapproved w ((now, r) ∷ rest) db k ordinary y =
    Change-unapproved k (rw ordinary.0 at (serve-Change w r db now))
      (serve_all-unapproved w rest (serve w r (begin db now)).durable k ordinary.1 y)
