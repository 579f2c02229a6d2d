-- ===== src/Orders/Reorder.antt =====
-- services/orders/app/reorder.py: the cart of a past order. The answer to the one lookup of all lines is an argument, and
-- so are the answers that `add_item` gets, one for each item.
pub mod Contents
use food_delivery_system.Base.{
  ℕ, ◌≡◌, refl, sym, ◌∙◌, Bool, true, false, not, Option, none, some, List, [], ◌∷◌, String, Result,
  ok, err, Action, pure, raise, raise_if, or_raise, ◌>>=◌, ◌>>◌, find, find-save, save, select, any,
  ltb, ◌==◌, ◌||◌, begin, All, All-save, arith, if◌then◌else◌, Bool-cases, Option-cases, inl, inr,
}
use food_delivery_system.Shared.Identity.{Identity}
use food_delivery_system.Orders.Models.{Order, OrderItem, OrdersDb}
use food_delivery_system.Orders.Store.{
  AppException, not_your_order, nothing_to_reorder, item_unavailable, other_restaurant,
  service_unavailable, lines_of,
}
use food_delivery_system.Orders.Lifecycle.{get_order_for_user}
use food_delivery_system.Orders.Cart.{
  StoredLine, line_key, StoredCart, cart_key, Redis, CartView, MenuItemLookup, load, store,
  is_empty, clear_cart, get_cart, is_elsewhere, quantity_of, add_found, add_item,
}

-- A row of the lookup's answer, as far as a reorder reads it.
pub record CurrentItem : Type 0 where
  pub id : ℕ
  pub is_available : Bool
  pub stock_quantity : Option ℕ

abbrev pub current_key : CurrentItem → ℕ
current_key i = i.id

pub data SkipReason : Type 0 where
  unavailable sold_out : SkipReason

pub record Skipped : Type 0 where
  pub name : String
  pub reason : SkipReason

-- `_short`
abbrev pub short : Option ℕ → ℕ → Bool
short none quantity = false
short (some left) quantity = ltb left quantity

-- The dict of the answer's rows: a later row of an id takes the place of an earlier one.
unfoldable pub by_id : List CurrentItem → List CurrentItem → List CurrentItem
by_id [] seen = seen
by_id (i ∷ rows) seen = by_id rows (save current_key i seen)

abbrev pub verdict : OrderItem → Option CurrentItem → Option SkipReason
verdict line none = some unavailable
verdict line (some i) =
    if not i.is_available
    then some unavailable
    else if short i.stock_quantity line.quantity
    then some sold_out
    else none

abbrev pub prepend : List Skipped → List Skipped → List Skipped
prepend [] rest = rest
prepend (s ∷ _) rest = s ∷ rest

module _ (answers : ℕ → Option (List MenuItemLookup)) (user_id : ℕ) where
  abbrev pub add_or_skip : OrderItem → Option SkipReason → Action AppException Redis (List Skipped)
  add_or_skip line none = do
    add_item (answers line.menu_item_id) user_id line.menu_item_id line.quantity
    pure []
  add_or_skip line (some reason) = pure (record { name = line.name; reason = reason } ∷ [])

  -- The loop over the lines.
  unfoldable pub refill :
      List CurrentItem → List OrderItem → Action AppException Redis (List Skipped)
  refill current [] = pure []
  refill current (line ∷ lines) = do
    skipped ← add_or_skip line (verdict line (find current_key line.menu_item_id current))
    rest ← refill current lines
    pure (prepend skipped rest)

  module _ (sha256 : List (ℕ × ℕ) → String) where
    -- From an empty cart.
    abbrev pub rebuild :
        List CurrentItem → List OrderItem → Action AppException Redis (CartView × List Skipped)
    rebuild current lines = do
      λ r. (ok tt, clear_cart user_id r)
      skipped ← refill current lines
      λ r. (ok (get_cart sha256 user_id r, skipped), r)

    abbrev pub reorder_found :
        Option (List CurrentItem)
        → List OrderItem
        → Result AppException Order
        → Action AppException Redis (CartView × List Skipped)
    reorder_found lookup lines (err e) = raise e
    reorder_found lookup lines (ok o) = do
      raise_if (not (o.customer_id == user_id)) not_your_order
      raise_if (is_empty lines) nothing_to_reorder
      rows ← or_raise lookup service_unavailable
      rebuild (by_id rows []) lines

unfoldable pub reorder :
    (List (ℕ × ℕ) → String)
    → Option (List CurrentItem)
    → (ℕ → Option (List MenuItemLookup))
    → OrdersDb
    → ℕ
    → Identity
    → ℕ
    → Action AppException Redis (CartView × List Skipped)
reorder sha256 lookup answers db now user order_id =
    reorder_found answers user.user_id sha256 lookup (lines_of order_id db.order_items)
      (get_order_for_user user order_id (begin db now)).0
