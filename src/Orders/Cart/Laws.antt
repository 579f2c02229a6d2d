-- ===== src/Orders/Cart/Laws.antt =====
-- The cart's invariant, and that the view shows what is stored.
use mathlib.Core.Path.{subst}
use food_delivery_system.Base.{
  ℕ, ◌+◌, ◌<◌, ◌≡◌, refl, sym, ◌∙◌, Bool, true, false, Option, none, some, List, [], ◌∷◌, Result,
  ok, err, All, find, save, find-save, IsKeyed, save-IsKeyed, select-All, select-IsKeyed, find-key,
  ◌==◌, if◌then◌else◌, arith, inl, inr, Bool-cases, Option-cases, All-find, All-save, ◌≢◌,
}
use food_delivery_system.Orders.Store.{Entity, AppException, not_found, other_restaurant}
use food_delivery_system.Orders.Cart.{
  StoredLine, line_key, StoredCart, cart_key, Redis, MenuItemLookup, load, store, is_empty,
  is_elsewhere, quantity_of, add_found, add_item, change_line, held_restaurant, update_item,
}

abbrev is_none {ℓ} : {A : Type ℓ} → Option A → Bool
is_none none = true
is_none (some _) = false

-- A stored cart: one line to an item, no empty line, and a restaurant exactly when there are lines.
pub record IsCart (c : StoredCart) : Type 0 where
  pub keyed : IsKeyed line_key c.items
  pub filled : All (λ l. 0 < l.quantity) c.items
  pub housed : is_empty c.items ≡ is_none c.restaurant_id

-- The carts of a store are keyed by user, and each is well formed.
pub record IsRedis (r : Redis) : Type 0 where
  pub keyed : IsKeyed cart_key r.carts
  pub each : All IsCart r.carts

load-IsCart : (u : ℕ) (r : Redis) → IsRedis r → IsCart (load u r)
load-IsCart u r h = elim (Option-cases (find cart_key u r.carts)) [
  | inl e ↦ rw e (record { keyed = tt; filled = tt; housed = refl })
  | inr (c, e) ↦ rw e (All-find cart_key IsCart u c r.carts h.each e)
]

store-IsRedis : (c : StoredCart) (r : Redis) → IsCart c → IsRedis r → IsRedis (store c r)
store-IsRedis c r w h = record {
  keyed = save-IsKeyed cart_key c r.carts h.keyed;
  each = All-save cart_key IsCart c r.carts h.each w;
}

is_empty-save : (l : StoredLine) (ls : List StoredLine) → is_empty (save line_key l ls) ≡ false
unfolding save
is_empty-save l [] = refl
is_empty-save l (x ∷ xs) = ground arith

load-user_id : (u : ℕ) (r : Redis) → (load u r).user_id ≡ u
load-user_id u r = elim (Option-cases (find cart_key u r.carts)) [
  | inl e ↦ rw e refl
  | inr (c, e) ↦ rw e (find-key cart_key u c r.carts e)
]

-- What is stored for a user is what that user loads, and no other user's cart changes.
load-store :
    (u : ℕ) (c : StoredCart) (r : Redis)
    → load u (store c r) ≡ (if c.user_id == u then c else load u r)
load-store u c r = rw find-save (ground arith)

-- What a cart operation leaves behind: every cart well formed, what it answered as the cart that the
-- user loads, and the other carts as they were; or, refused, nothing.
abbrev pub Keeps : Redis → ℕ → Result AppException StoredCart × Redis → Type 0
Keeps r u (ok c, r') = IsRedis r' × (load u r' ≡ c) × ((v : ℕ) → v ≢ u → load v r' ≡ load v r)
Keeps r u (err _, r') = r' ≡ r

store-Keeps :
    (u : ℕ) (c : StoredCart) (r : Redis)
    → c.user_id ≡ u
    → IsCart c
    → IsRedis r
    → Keeps r u (ok c, store c r)
store-Keeps u c r e w h = (
  store-IsRedis c r w h,
  load-store u c r ∙ ground arith,
  λ v ne. load-store v c r ∙ ground arith,
)

added : ℕ → ℕ → MenuItemLookup → StoredCart → StoredCart
added m q item c = record c {
  restaurant_id = some item.restaurant_id;
  items =
      save line_key
        (record {
          menu_item_id = m;
          name = item.name;
          unit_price = item.price;
          quantity = quantity_of (find line_key m c.items) + q;
        })
        c.items;
}

added-IsCart :
    (m q : ℕ) (item : MenuItemLookup) (c : StoredCart)
    → 0 < q
    → IsCart c
    → IsCart (added m q item c)
unfolding added
added-IsCart m q item c pos w = record {
  keyed = save-IsKeyed line_key _ c.items w.keyed;
  filled = All-save line_key (λ l. 0 < l.quantity) _ c.items w.filled (omega arith);
  housed = is_empty-save _ c.items;
}

add_found-Keeps :
    (item : MenuItemLookup) (u m q : ℕ) (r : Redis)
    → 0 < q
    → IsRedis r
    → Keeps r u (add_found u m q item r)
unfolding add_found added
add_found-Keeps item u m q r pos h = elim (Bool-cases item.is_available) [
  | inr gone ↦ rw gone refl
  | inl there ↦
      rw there (elim (Bool-cases (is_elsewhere (load u r).restaurant_id item.restaurant_id)) [
        | inl elsewhere ↦ rw elsewhere refl
        | inr here ↦ rw here (
            store-Keeps u (added m q item (load u r)) r (load-user_id u r)
              (added-IsCart m q item (load u r) pos (load-IsCart u r h)) h)
      ])
]

-- Adding a positive quantity of an item keeps every cart well formed, is what the user loads
-- afterwards, and touches no other user's cart; a refused addition changes nothing.
pub add_item-Keeps :
    (rows : Option (List MenuItemLookup)) (u m q : ℕ) (r : Redis)
    → 0 < q
    → IsRedis r
    → Keeps r u (add_item rows u m q r)
unfolding add_item
add_item-Keeps none u m q r pos h = refl
add_item-Keeps (some []) u m q r pos h = refl
add_item-Keeps (some (item ∷ _)) u m q r pos h = add_found-Keeps item u m q r pos h

change_line-IsKeyed :
    (q : ℕ) (l : StoredLine) (ls : List StoredLine)
    → IsKeyed line_key ls
    → IsKeyed line_key (change_line q l ls)
change_line-IsKeyed q l ls h = elim (Bool-cases (q == 0)) [
  | inl gone ↦ rw gone (select-IsKeyed line_key _ ls h)
  | inr kept ↦ rw kept (save-IsKeyed line_key _ ls h)
]

change_line-filled :
    (q : ℕ) (l : StoredLine) (ls : List StoredLine)
    → All (λ x. 0 < x.quantity) ls
    → All (λ x. 0 < x.quantity) (change_line q l ls)
change_line-filled q l ls h = elim (Bool-cases (q == 0)) [
  | inl gone ↦ rw gone (select-All _ _ ls h)
  | inr kept ↦ rw kept (All-save line_key (λ x. 0 < x.quantity) _ ls h (ground arith))
]

held_restaurant-housed :
    (items : List StoredLine) (held : Option ℕ)
    → is_none held ≡ false
    → is_empty items ≡ is_none (held_restaurant items held)
held_restaurant-housed [] held h = refl
held_restaurant-housed (x ∷ xs) held h = sym h

find-is_empty :
    (k : ℕ) (l : StoredLine) (ls : List StoredLine)
    → find line_key k ls ≡ some l
    → is_empty ls ≡ false
unfolding find
find-is_empty k l [] e = cc
find-is_empty k l (x ∷ xs) e = refl

changed : ℕ → StoredLine → StoredCart → StoredCart
changed q l c =
    let items = change_line q l c.items in
    record c { items = items; restaurant_id = held_restaurant items c.restaurant_id }

changed-IsCart :
    (k q : ℕ) (l : StoredLine) (c : StoredCart)
    → find line_key k c.items ≡ some l
    → IsCart c
    → IsCart (changed q l c)
unfolding changed
changed-IsCart k q l c e w = record {
  keyed = change_line-IsKeyed q l c.items w.keyed;
  filled = change_line-filled q l c.items w.filled;
  housed =
      held_restaurant-housed (change_line q l c.items) c.restaurant_id
        (sym w.housed ∙ find-is_empty k l c.items e);
}

update_item-found :
    (u m q : ℕ) (r : Redis) (l : StoredLine)
    → find line_key m (load u r).items ≡ some l
    → update_item u m q r ≡ (ok (changed q l (load u r)), store (changed q l (load u r)) r)
unfolding update_item changed
update_item-found u m q r l e = ground arith

update_item-absent :
    (u m q : ℕ) (r : Redis)
    → find line_key m (load u r).items ≡ none
    → update_item u m q r ≡ (err (not_found Entity.cart_item m), r)
unfolding update_item
update_item-absent u m q r e = ground arith

-- Setting a quantity, or removing the line at zero, keeps every cart well formed, is what the user
-- loads afterwards, and touches no other user's cart; a refusal changes nothing.
pub update_item-Keeps : (u m q : ℕ) (r : Redis) → IsRedis r → Keeps r u (update_item u m q r)
unfolding changed
update_item-Keeps u m q r h = elim (Option-cases (find line_key m (load u r).items)) [
  | inl absent ↦ subst (Keeps r u) (sym (update_item-absent u m q r absent)) refl
  | inr (l, e) ↦ subst (Keeps r u) (sym (update_item-found u m q r l e)) (
      store-Keeps u (changed q l (load u r)) r (load-user_id u r)
        (changed-IsCart m q l (load u r) e (load-IsCart u r h)) h)
]

-- Adding to a cart that holds another restaurant's items is refused, and changes nothing.
pub add_item-other_restaurant :
    (item : MenuItemLookup) (rows : List MenuItemLookup) (u m q held : ℕ) (r : Redis)
    → item.is_available ≡ true
    → (load u r).restaurant_id ≡ some held
    → held ≢ item.restaurant_id
    → add_item (some (item ∷ rows)) u m q r ≡ (err other_restaurant, r)
unfolding add_item add_found
add_item-other_restaurant item rows u m q held r there e ne = ground arith
