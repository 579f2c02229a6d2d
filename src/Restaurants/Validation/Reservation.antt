-- ===== src/Restaurants/Validation/Reservation.antt =====
-- What a reservation takes, and that releasing the same lines gives it back.
use food_delivery_system.Base.{
  ℕ, ◌≡◌, refl, sym, ◌∙◌, true, false, none, some, List, [], ◌∷◌, ok, begin, All, All-map, IsKeyed,
  find, find-select, find-IsKeyed, keep_if-some, map, ◌==◌, arith, Bool-cases, Option-cases,
  Result-cases, inl, inr,
}
use food_delivery_system.Restaurants.Models.{
  Restaurant, MenuItem, RestaurantsDb, restaurant_key, item_key,
}
use food_delivery_system.Restaurants.Inventory.{shortfall, total_of, apply_order}
use food_delivery_system.Restaurants.Inventory.Laws.{IsCovered, restore_order-apply_order}
use food_delivery_system.Restaurants.Zones.{Geometry}
use food_delivery_system.Restaurants.Validation.Lines.{check_lines-IsSplit, check_lines-portions}
use food_delivery_system.Restaurants.Validation.{
  OrderLine, ValidateOrderRequest, ValidatedLine, LocalTime, accepted, menu_of, check_lines,
  portion, line_portion, verdict, validate_order, release_stock,
}

abbrev pub line_key : OrderLine → ℕ
line_key l = l.menu_item_id

total_of-none :
    (id : ℕ) (items : List OrderLine)
    → find line_key id items ≡ none
    → total_of id (map line_portion items) ≡ 0
unfolding find total_of
total_of-none id [] e = refl
total_of-none id (l ∷ ls) e = ground (arith, total_of-none id ls, e)

check_lines-covers :
    (rows : List MenuItem) (i : MenuItem) (ls : List OrderLine) (vs : List ValidatedLine)
    (subtotal : ℕ)
    → ((v : MenuItem) → find item_key i.id rows ≡ some v → v ≡ i)
    → IsKeyed line_key ls
    → check_lines rows ls ≡ ok (vs, subtotal)
    → IsCovered (map line_portion ls) i
unfolding total_of shortfall
check_lines-covers rows i [] vs subtotal only k e = ground arith
check_lines-covers rows i (l ∷ ls) vs subtotal only k e =
    let s = check_lines-IsSplit rows l ls vs subtotal e in
    elim (Bool-cases (l.menu_item_id == i.id)) [
      | inl own ↦
          let same : l.menu_item_id ≡ i.id = ground (arith, own) in
          let it : s.sellable.item ≡ i = only s.sellable.item (simp (sym same) s.sellable.listed) in
          let alone : find line_key i.id ls ≡ none = simp (sym same) k.0 in
          let enough : shortfall i l.quantity ≡ false = simp (sym it) s.sellable.in_stock in
          ground (arith, own, total_of-none i.id ls alone, enough)
      | inr other ↦
          ground (arith, other, check_lines-covers rows i ls s.tail s.tail_total only k.1 s.at_tail)
    ]

-- Each item of the menu has what accepted lines want of it, where no two of them name one item.
pub check_lines-IsCovered :
    (restaurant_id : ℕ) (items : List MenuItem) (ls : List OrderLine) (vs : List ValidatedLine)
    (subtotal : ℕ)
    → IsKeyed item_key items
    → IsKeyed line_key ls
    → check_lines (menu_of restaurant_id items) ls ≡ ok (vs, subtotal)
    → All (IsCovered (map line_portion ls)) items
check_lines-IsCovered restaurant_id items ls vs subtotal keyed k e =
    All-map
      (λ i here.
        check_lines-covers (menu_of restaurant_id items) i ls vs subtotal
          (λ v found.
            let there : find item_key i.id items ≡ some v =
              keep_if-some item_key (λ x. x.restaurant_id == restaurant_id) _ v
                (sym (find-select item_key (λ x. x.restaurant_id == restaurant_id) i.id items keyed)
                  ∙ found) in
            cc)
          k e)
      items (find-IsKeyed item_key items keyed)

-- An accepted response carries the lines that the loop let through.
pub verdict-lines :
    (g : Geometry) (t : LocalTime) (db : RestaurantsDb) (r : Restaurant)
    (body : ValidateOrderRequest) (id : ℕ) (vs : List ValidatedLine) (subtotal : ℕ)
    → verdict g t db r body ≡ accepted id vs subtotal
    → check_lines (menu_of r.id db.menu_items) body.items ≡ ok (vs, subtotal)
unfolding verdict
verdict-lines g t db r body id vs subtotal e =
    elim (Result-cases (check_lines (menu_of r.id db.menu_items) body.items)) [
      | inl ((vs', total), passed) ↦ ground (arith, passed)
      | inr (c, failed) ↦ ground (arith, failed)
    ]

-- The durable menu after an accepted reservation.
reserved-menu :
    (g : Geometry) (clock : ℕ → LocalTime) (id : ℕ) (body : ValidateOrderRequest)
    (db : RestaurantsDb) (now : ℕ) (r : Restaurant) (rid : ℕ) (vs : List ValidatedLine)
    (subtotal : ℕ)
    → body.reserve ≡ true
    → find restaurant_key id db.restaurants ≡ some r
    → verdict g (clock now) db r body ≡ accepted rid vs subtotal
    → (validate_order g clock id body (begin db now)).1.durable.menu_items
      ≡ apply_order (map portion vs) db.menu_items
unfolding validate_order
reserved-menu g clock id body db now r rid vs subtotal reserve found e =
    ground (arith, reserve, found, e)

-- The restaurant of an order that was accepted.
accepted-restaurant :
    (g : Geometry) (clock : ℕ → LocalTime) (id : ℕ) (body : ValidateOrderRequest)
    (db : RestaurantsDb) (now : ℕ) (rid : ℕ) (vs : List ValidatedLine) (subtotal : ℕ)
    → (validate_order g clock id body (begin db now)).0 ≡ ok (accepted rid vs subtotal)
    → (r : Restaurant) × (find restaurant_key id db.restaurants ≡ some r)
      × (verdict g (clock now) db r body ≡ accepted rid vs subtotal)
unfolding validate_order
accepted-restaurant g clock id body db now rid vs subtotal e =
    elim (Option-cases (find restaurant_key id db.restaurants)) [
      | inl missing ↦ ground (arith, missing)
      | inr (r, found) ↦ (r, found, ground (arith, found))
    ]

-- When an order that names each item once is accepted with its stock reserved, and the same lines are
-- released later with nothing in between, every item of the menu has the stock it had before.
pub release_stock-validate_order :
    (g : Geometry) (clock : ℕ → LocalTime) (id : ℕ) (body : ValidateOrderRequest)
    (db : RestaurantsDb) (now later : ℕ) (rid : ℕ) (vs : List ValidatedLine) (subtotal : ℕ)
    → body.reserve ≡ true
    → IsKeyed item_key db.menu_items
    → IsKeyed line_key body.items
    → (validate_order g clock id body (begin db now)).0 ≡ ok (accepted rid vs subtotal)
    → (release_stock id body.items (
        begin (validate_order g clock id body (begin db now)).1.durable later)).1.durable.menu_items
      ≡ db.menu_items
unfolding release_stock
release_stock-validate_order g clock id body db now later rid vs subtotal reserve keyed k e =
    let a = accepted-restaurant g clock id body db now rid vs subtotal e in
    let lines = verdict-lines g (clock now) db a.0 body rid vs subtotal a.2 in
    cc (
      reserved-menu g clock id body db now a.0 rid vs subtotal reserve a.1 a.2,
      check_lines-portions _ body.items vs subtotal lines,
      restore_order-apply_order (map line_portion body.items) db.menu_items
          (check_lines-IsCovered a.0.id db.menu_items body.items vs subtotal keyed k lines),
    )
