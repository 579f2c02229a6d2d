-- ===== src/Orders/Cart/View.antt =====
-- The view of a cart shows what is stored.
use food_delivery_system.Base.{String, ℕ, ◌+◌, ◌*◌, ◌≡◌, refl, ◌∙◌, ap, List, [], ◌∷◌, map, arith}
use food_delivery_system.Orders.Cart.{
  StoredLine, StoredCart, CartItemView, insert_sorted, sort_items, view_line, subtotal_of, view,
}

-- What the stored lines cost.
pub stored_total : List StoredLine → ℕ
stored_total [] = 0
stored_total (l ∷ ls) = l.unit_price * l.quantity + stored_total ls

subtotal-insert_sorted :
    (x : CartItemView) (ys : List CartItemView)
    → subtotal_of (insert_sorted x ys) ≡ x.line_total + subtotal_of ys
unfolding insert_sorted subtotal_of
subtotal-insert_sorted x [] = refl
subtotal-insert_sorted x (y ∷ ys) = ground (arith, subtotal-insert_sorted x ys)

subtotal-sort_items :
    (ls : List StoredLine) → subtotal_of (sort_items (map view_line ls)) ≡ stored_total ls
unfolding sort_items subtotal_of stored_total
subtotal-sort_items [] = refl
subtotal-sort_items (l ∷ ls) =
    subtotal-insert_sorted (view_line l) (sort_items (map view_line ls))
    ∙ ap (λ (t : ℕ). l.unit_price * l.quantity + t) (subtotal-sort_items ls)

-- The shown subtotal is what the stored lines cost, whatever their order in the store.
pub view-subtotal :
    (sha256 : List (ℕ × ℕ) → String) (c : StoredCart)
    → (view sha256 c).subtotal ≡ stored_total c.items
unfolding view stored_total
view-subtotal sha256 c = view_cases c.items refl
  where
    view_cases :
        (ls : List StoredLine) → c.items ≡ ls → (view sha256 c).subtotal ≡ stored_total c.items
    view_cases [] e = ground arith
    view_cases (l ∷ ls) e = ground (arith, subtotal-sort_items c.items)
