-- ===== src/Restaurants/Menu.antt =====
-- services/restaurants/app/menu.py, its writes. A field that a payload leaves out is none; the texts and
-- pictures of an item other than its name are left out.
use food_delivery_system.Base.{
  ℕ, suc, Bool, not, Option, none, some, List, String, pure, raise_if, or_raise, gets, modify,
  commit, ◌>>=◌, ◌>>◌, find, save, select, any, or_else, ◌==◌,
}
use food_delivery_system.Shared.Identity.{Identity}
use food_delivery_system.Restaurants.Models.{
  MenuCategory, MenuItem, category_not_found, item_not_found, category_holds_items, Act,
  category_key, item_key,
}
use food_delivery_system.Restaurants.Service.{owned_restaurant}

pub record MenuItemCreate : Type 0 where
  pub category_id : ℕ
  pub name : String
  pub price : ℕ
  pub is_available : Bool
  pub stock_quantity : Option ℕ

pub record MenuItemUpdate : Type 0 where
  pub category_id : Option ℕ
  pub name : Option String
  pub price : Option ℕ
  pub is_available : Option Bool
  pub stock_quantity : Option (Option ℕ)

abbrev pub put_category : MenuCategory → Act (Unit {0})
put_category c =
    modify (λ db. record db { menu_categories = save category_key c db.menu_categories })

abbrev pub put_item : MenuItem → Act (Unit {0})
put_item i = modify (λ db. record db { menu_items = save item_key i db.menu_items })

unfoldable pub add_category : Identity → ℕ → String → ℕ → Act MenuCategory
add_category user restaurant_id name sort_order = do
  owned_restaurant user restaurant_id
  id ← gets (λ db. db.next_category_id)
  modify (λ db. record db { next_category_id = suc id })
  put_category
      (record { id = id; restaurant_id = restaurant_id; name = name; sort_order = sort_order })
  commit
  pure (record { id = id; restaurant_id = restaurant_id; name = name; sort_order = sort_order })

abbrev pub category_in_restaurant : ℕ → ℕ → Act MenuCategory
category_in_restaurant restaurant_id category_id = do
  found ← gets (λ db. find category_key category_id db.menu_categories)
  c ← or_raise found category_not_found
  raise_if (not (c.restaurant_id == restaurant_id)) category_not_found
  pure c

abbrev pub item_in_restaurant : ℕ → ℕ → Act MenuItem
item_in_restaurant restaurant_id item_id = do
  found ← gets (λ db. find item_key item_id db.menu_items)
  i ← or_raise found item_not_found
  raise_if (not (i.restaurant_id == restaurant_id)) item_not_found
  pure i

abbrev pub renamed : Option String → Option ℕ → MenuCategory → MenuCategory
renamed name sort_order c = record c {
  name = or_else name c.name;
  sort_order = or_else sort_order c.sort_order;
}

unfoldable pub update_category : Identity → ℕ → ℕ → Option String → Option ℕ → Act MenuCategory
update_category user restaurant_id category_id name sort_order = do
  owned_restaurant user restaurant_id
  c ← category_in_restaurant restaurant_id category_id
  put_category (renamed name sort_order c)
  commit
  pure (renamed name sort_order c)

-- `held` is a count that is not 0.
abbrev pub is_holding : ℕ → List MenuItem → Bool
is_holding category_id = any (λ i. i.category_id == category_id)

unfoldable pub delete_category : Identity → ℕ → ℕ → Act (Unit {0})
delete_category user restaurant_id category_id = do
  owned_restaurant user restaurant_id
  c ← category_in_restaurant restaurant_id category_id
  held ← gets (λ db. is_holding category_id db.menu_items)
  raise_if held category_holds_items
  modify (λ db. record db { menu_categories = select (λ x. not (x.id == c.id)) db.menu_categories })
  commit

abbrev pub new_item : ℕ → ℕ → MenuItemCreate → MenuItem
new_item id restaurant_id data_in = record {
  id = id;
  restaurant_id = restaurant_id;
  category_id = data_in.category_id;
  name = data_in.name;
  price = data_in.price;
  is_available = data_in.is_available;
  stock_quantity = data_in.stock_quantity;
}

unfoldable pub add_item : Identity → ℕ → MenuItemCreate → Act MenuItem
add_item user restaurant_id data_in = do
  owned_restaurant user restaurant_id
  category_in_restaurant restaurant_id data_in.category_id
  id ← gets (λ db. db.next_item_id)
  modify (λ db. record db { next_item_id = suc id })
  put_item (new_item id restaurant_id data_in)
  commit
  pure (new_item id restaurant_id data_in)

abbrev pub changed : MenuItemUpdate → MenuItem → MenuItem
changed u i = record i {
  category_id = or_else u.category_id i.category_id;
  name = or_else u.name i.name;
  price = or_else u.price i.price;
  is_available = or_else u.is_available i.is_available;
  stock_quantity = or_else u.stock_quantity i.stock_quantity;
}

-- `if "category_id" in updates: …`
abbrev pub category_if_given : ℕ → Option ℕ → Act (Unit {0})
category_if_given restaurant_id none = pure tt
category_if_given restaurant_id (some category_id) = do
  category_in_restaurant restaurant_id category_id
  pure tt

abbrev pub store_item : MenuItem → Act MenuItem
store_item i = do put_item i; commit; pure i

abbrev pub store_in_category : ℕ → MenuItemUpdate → MenuItem → Act MenuItem
store_in_category restaurant_id u i = do
  category_if_given restaurant_id u.category_id
  store_item (changed u i)

abbrev pub change_item : ℕ → ℕ → MenuItemUpdate → Act MenuItem
change_item restaurant_id item_id u = do
  i ← item_in_restaurant restaurant_id item_id
  store_in_category restaurant_id u i

unfoldable pub update_item : Identity → ℕ → ℕ → MenuItemUpdate → Act MenuItem
update_item user restaurant_id item_id u = do
  owned_restaurant user restaurant_id
  change_item restaurant_id item_id u

unfoldable pub delete_item : Identity → ℕ → ℕ → Act (Unit {0})
delete_item user restaurant_id item_id = do
  owned_restaurant user restaurant_id
  i ← item_in_restaurant restaurant_id item_id
  modify (λ db. record db { menu_items = select (λ x. not (x.id == i.id)) db.menu_items })
  commit
