-- ===== src/Restaurants/Validation.antt =====
-- services/restaurants/app/internal.py: what the orders service asks of this one at checkout. A rejection
-- keeps its code, not its wording.
pub mod Lines
pub mod Reservation
use food_delivery_system.Base.{
  ℕ, Bool, true, false, not, Option, none, some, List, [], ◌∷◌, String, ◌+◌, ◌*◌, pure, or_raise,
  gets, modify, commit, get_now, Result, ok, err, ◌>>=◌, ◌>>◌, when, find, select, map, leb, ltb,
  ◌==◌, if◌then◌else◌, ◌||◌,
}
use food_delivery_system.Restaurants.Models.{
  Restaurant, OpeningHour, MenuItem, RestaurantsDb, Error, restaurant_not_found, Act,
  restaurant_key, item_key,
}
use food_delivery_system.Restaurants.Hours.{schedule_status}
use food_delivery_system.Restaurants.Inventory.{Portion, shortfall, apply_order, restore_order}
use food_delivery_system.Restaurants.Zones.{Geometry, AddressPoint, check}

pub record OrderLine : Type 0 where
  pub menu_item_id : ℕ
  pub quantity : ℕ
  pub unit_price : ℕ

pub record ValidateOrderRequest : Type 0 where
  pub items : List OrderLine
  pub address : AddressPoint
  pub reserve : Bool

pub record ValidatedLine : Type 0 where
  pub menu_item_id : ℕ
  pub name : String
  pub unit_price : ℕ
  pub quantity : ℕ
  pub line_total : ℕ

pub data Code : Type 0 where
  restaurant_closed empty_cart item_out_of_stock price_mismatch_refresh address_out_of_zone
        min_order_not_met :
      Code

pub data ValidateOrderResponse : Type 0 where
  rejected : Code → ValidateOrderResponse
  accepted : ℕ → List ValidatedLine → ℕ → ValidateOrderResponse

-- The service's clock zone, an instant's local weekday and minute.
pub record LocalTime : Type 0 where
  pub day_of_week : ℕ
  pub minute : ℕ

abbrev pub opening_hours_for : ℕ → List OpeningHour → List OpeningHour
opening_hours_for restaurant_id = select (λ h. h.restaurant_id == restaurant_id)

abbrev pub menu_of : ℕ → List MenuItem → List MenuItem
menu_of restaurant_id = select (λ i. i.restaurant_id == restaurant_id)

abbrev pub validated_line : MenuItem → OrderLine → ValidatedLine
validated_line i l = record {
  menu_item_id = i.id;
  name = i.name;
  unit_price = i.price;
  quantity = l.quantity;
  line_total = i.price * l.quantity;
}

-- One turn of the loop over the lines.
abbrev pub check_item : OrderLine → Option MenuItem → Result Code ValidatedLine
check_item l none = err item_out_of_stock
check_item l (some i) =
    if not i.is_available || shortfall i l.quantity
    then err item_out_of_stock
    else if i.price == l.unit_price
    then ok (validated_line i l)
    else err price_mismatch_refresh

-- A line before the rest of the loop: the lines so far, and their subtotal.
abbrev pub and_then :
    Result Code ValidatedLine
    → Result Code (List ValidatedLine × ℕ)
    → Result Code (List ValidatedLine × ℕ)
and_then (err c) rest = err c
and_then (ok v) (err c) = err c
and_then (ok v) (ok (vs, subtotal)) = ok (v ∷ vs, v.line_total + subtotal)

unfoldable pub check_lines : List MenuItem → List OrderLine → Result Code (List ValidatedLine × ℕ)
check_lines rows [] = ok ([], 0)
check_lines rows (l ∷ ls) =
    and_then (check_item l (find item_key l.menu_item_id rows)) (check_lines rows ls)

abbrev pub portion : ValidatedLine → Portion
portion v = record { menu_item_id = v.menu_item_id; quantity = v.quantity }

abbrev pub is_none_wanted : List OrderLine → Bool
is_none_wanted [] = true
is_none_wanted (_ ∷ _) = false

-- The checks after the lines.
abbrev pub conclude :
    Geometry → Restaurant → AddressPoint → List ValidatedLine → ℕ → ValidateOrderResponse
conclude g r a lines subtotal =
    if not (check g r a).serviceable
    then rejected address_out_of_zone
    else if ltb subtotal r.min_order_amount
    then rejected min_order_not_met
    else accepted r.id lines subtotal

abbrev pub verdict_on_lines :
    Geometry
    → Restaurant
    → AddressPoint
    → Result Code (List ValidatedLine × ℕ)
    → ValidateOrderResponse
verdict_on_lines g r a (err c) = rejected c
verdict_on_lines g r a (ok (lines, subtotal)) = conclude g r a lines subtotal

-- All the checks, on what the tables hold.
unfoldable pub verdict :
    Geometry → LocalTime → RestaurantsDb → Restaurant → ValidateOrderRequest → ValidateOrderResponse
verdict g t db r body =
    let schedule = opening_hours_for r.id db.opening_hours in
    if not r.is_open
    then rejected restaurant_closed
    else if not (schedule_status r.is_open schedule t.day_of_week t.minute).accepting_orders
    then rejected restaurant_closed
    else if is_none_wanted body.items
    then rejected empty_cart
    else verdict_on_lines g r body.address (check_lines (menu_of r.id db.menu_items) body.items)

abbrev pub take_stock : List ValidatedLine → Act (Unit {0})
take_stock lines = do
  modify (λ db. record db { menu_items = apply_order (map portion lines) db.menu_items })
  commit

-- `if body.reserve: …`, which only an accepted order reaches.
abbrev pub reserve_if : Bool → ValidateOrderResponse → Act ValidateOrderResponse
reserve_if reserve (rejected c) = pure (rejected c)
reserve_if reserve (accepted id lines subtotal) = do
  when reserve (take_stock lines)
  pure (accepted id lines subtotal)

unfoldable pub validate_order :
    Geometry → (ℕ → LocalTime) → ℕ → ValidateOrderRequest → Act ValidateOrderResponse
validate_order g clock restaurant_id body = do
  found ← gets (λ db. find restaurant_key restaurant_id db.restaurants)
  r ← or_raise found restaurant_not_found
  now ← get_now
  response ← gets (λ db. verdict g (clock now) db r body)
  reserve_if body.reserve response

abbrev pub line_portion : OrderLine → Portion
line_portion l = record { menu_item_id = l.menu_item_id; quantity = l.quantity }

unfoldable pub release_stock : ℕ → List OrderLine → Act (Unit {0})
release_stock restaurant_id items = do
  modify (λ db. record db { menu_items = restore_order (map line_portion items) db.menu_items })
  commit
