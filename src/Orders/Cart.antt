-- ===== src/Orders/Cart.antt =====
-- services/orders/app/cart.py: the cart in Redis, one to a user, and its view. The answer of the
-- restaurants service to `/restaurants/items/lookup` is an argument (`none` where the client raises
-- 503), and so is the digest of `_price_hash`, which is SHA-256 over the formatted ids and prices.
pub mod Laws
pub mod View
use food_delivery_system.Base.{
  ℕ, ◌+◌, ◌*◌, Bool, true, false, not, Option, none, some, List, [], ◌∷◌, String, Result, ok, err,
  Action, pure, raise, raise_if, or_raise, ◌>>=◌, ◌>>◌, find, save, map, select, leb, ◌==◌,
  if◌then◌else◌,
}
use food_delivery_system.Orders.Store.{
  Entity, AppException, not_found, item_unavailable, other_restaurant, service_unavailable,
}

-- A line of the stored dict, under its `menu_item_id`.
pub record StoredLine : Type 0 where
  pub menu_item_id : ℕ
  pub name : String
  pub unit_price : ℕ
  pub quantity : ℕ

abbrev pub line_key : StoredLine → ℕ
line_key l = l.menu_item_id

pub record StoredCart : Type 0 where
  pub user_id : ℕ
  pub restaurant_id : Option ℕ
  pub items : List StoredLine

abbrev pub cart_key : StoredCart → ℕ
cart_key c = c.user_id

-- The key `order_lock:{user_id}`, which is gone from its time on.
pub record Lock : Type 0 where
  pub user_id : ℕ
  pub expires_at : ℕ

-- The keys `cart:{user_id}`, whose expiry after a week is left out, and the locks.
pub record Redis : Type 0 where
  pub carts : List StoredCart
  pub locks : List Lock

pub record CartItemView : Type 0 where
  pub menu_item_id : ℕ
  pub name : String
  pub unit_price : ℕ
  pub quantity : ℕ
  pub line_total : ℕ

pub record CartView : Type 0 where
  pub restaurant_id : Option ℕ
  pub items : List CartItemView
  pub subtotal : ℕ
  pub price_hash : String

-- A row of the lookup's answer.
pub record MenuItemLookup : Type 0 where
  pub id : ℕ
  pub restaurant_id : ℕ
  pub name : String
  pub price : ℕ
  pub is_available : Bool

abbrev pub empty_cart_of : ℕ → StoredCart
empty_cart_of user_id = record { user_id = user_id; restaurant_id = none; items = [] }

abbrev pub or_empty : ℕ → Option StoredCart → StoredCart
or_empty user_id none = empty_cart_of user_id
or_empty user_id (some c) = c

-- `_load`
abbrev pub load : ℕ → Redis → StoredCart
load user_id r = or_empty user_id (find cart_key user_id r.carts)

-- `_save`
abbrev pub store : StoredCart → Redis → Redis
store c r = record r { carts = save cart_key c r.carts }

-- `clear_cart`: without its row a cart loads as the empty one.
unfoldable pub clear_cart : ℕ → Redis → Redis
clear_cart user_id r = record r { carts = select (λ c. not (c.user_id == user_id)) r.carts }

-- `sort(key=menu_item_id)`
unfoldable pub insert_sorted : CartItemView → List CartItemView → List CartItemView
insert_sorted x [] = x ∷ []
insert_sorted x (y ∷ ys) =
    if leb x.menu_item_id y.menu_item_id then x ∷ y ∷ ys else y ∷ insert_sorted x ys

unfoldable pub sort_items : List CartItemView → List CartItemView
sort_items [] = []
sort_items (x ∷ xs) = insert_sorted x (sort_items xs)

abbrev pub view_line : StoredLine → CartItemView
view_line l = record {
  menu_item_id = l.menu_item_id;
  name = l.name;
  unit_price = l.unit_price;
  quantity = l.quantity;
  line_total = l.unit_price * l.quantity;
}

-- `sum(i.line_total for i in items)`
unfoldable pub subtotal_of : List CartItemView → ℕ
subtotal_of [] = 0
subtotal_of (x ∷ xs) = x.line_total + subtotal_of xs

abbrev pub is_empty {ℓ} : {A : Type ℓ} → List A → Bool
is_empty [] = true
is_empty (_ ∷ _) = false

module _ (sha256 : List (ℕ × ℕ) → String) where
  -- `_price_hash`
  abbrev pub price_hash_of : List CartItemView → String
  price_hash_of items = sha256 (map (λ i. (i.menu_item_id, i.unit_price)) (sort_items items))

  -- `_view`
  unfoldable pub view : StoredCart → CartView
  view c =
      let items = sort_items (map view_line c.items) in
      if is_empty c.items
      then record { restaurant_id = none; items = []; subtotal = 0; price_hash = "" }
      else record {
        restaurant_id = c.restaurant_id;
        items = items;
        subtotal = subtotal_of items;
        price_hash = price_hash_of items;
      }

  unfoldable pub get_cart : ℕ → Redis → CartView
  get_cart user_id r = view (load user_id r)

-- `data.get("restaurant_id") not in (None, item["restaurant_id"])`
abbrev pub is_elsewhere : Option ℕ → ℕ → Bool
is_elsewhere none rid = false
is_elsewhere (some held) rid = not (held == rid)

-- `int(line["quantity"]) if line else 0`
abbrev pub quantity_of : Option StoredLine → ℕ
quantity_of none = 0
quantity_of (some l) = l.quantity

-- `add_item` once the row of the item is there
unfoldable pub add_found : ℕ → ℕ → ℕ → MenuItemLookup → Action AppException Redis StoredCart
add_found user_id menu_item_id quantity item r =
    let c = load user_id r in
    let held = quantity_of (find line_key menu_item_id c.items) in
    let line : StoredLine = record {
      menu_item_id = menu_item_id;
      name = item.name;
      unit_price = item.price;
      quantity = held + quantity;
    } in
    let c' = record c {
      restaurant_id = some item.restaurant_id;
      items = save line_key line c.items;
    } in
    if not item.is_available
    then (err item_unavailable, r)
    else if is_elsewhere c.restaurant_id item.restaurant_id
    then (err other_restaurant, r)
    else (ok c', store c' r)

unfoldable pub add_item :
    Option (List MenuItemLookup) → ℕ → ℕ → ℕ → Action AppException Redis StoredCart
add_item none user_id menu_item_id quantity = raise service_unavailable
add_item (some []) user_id menu_item_id quantity = raise (not_found Entity.menu_item menu_item_id)
add_item (some (item ∷ _)) user_id menu_item_id quantity =
    add_found user_id menu_item_id quantity item

-- `del data["items"][key]`, or the line with its new quantity
abbrev pub change_line : ℕ → StoredLine → List StoredLine → List StoredLine
change_line quantity line items =
    if quantity == 0
    then select (λ l. not (l.menu_item_id == line.menu_item_id)) items
    else save line_key (record line { quantity = quantity }) items

abbrev pub held_restaurant : List StoredLine → Option ℕ → Option ℕ
held_restaurant items held = if is_empty items then none else held

unfoldable pub update_item : ℕ → ℕ → ℕ → Action AppException Redis StoredCart
update_item user_id menu_item_id quantity r =
    let c = load user_id r in
    elim (find line_key menu_item_id c.items) [
      | none ↦ (err (not_found Entity.cart_item menu_item_id), r)
      | some line ↦
          let items = change_line quantity line c.items in
          let c' = record c {
            items = items;
            restaurant_id = held_restaurant items c.restaurant_id;
          } in
          (ok c', store c' r)
    ]

unfoldable pub remove_item : ℕ → ℕ → Action AppException Redis StoredCart
remove_item user_id menu_item_id = update_item user_id menu_item_id 0
