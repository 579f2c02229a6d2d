-- ===== src/Restaurants/Inventory/Laws.antt =====
-- What an order takes from stock, and that giving it back is the inverse where nothing ran short.
use food_delivery_system.Base.{
  ◌≡◌, refl, false, List, [], ◌∷◌, ◌+◌, ◌-◌, All, arith, Bool-cases, Option-cases, inl, inr,
}
use food_delivery_system.Restaurants.Models.{MenuItem}
use food_delivery_system.Restaurants.Inventory.{
  Portion, shortfall, total_of, is_wanted, moved, apply_order, restore_order,
}

-- There is enough of an item for all that the order wants of it.
abbrev pub IsCovered : List Portion → MenuItem → Type 0
IsCovered ps item = shortfall item (total_of item.id ps) ≡ false

moved-back :
    (ps : List Portion) (item : MenuItem)
    → IsCovered ps item
    → moved (λ n total. n + total) ps (moved (λ n total. n - total) ps item) ≡ item
unfolding moved shortfall
moved-back ps item c = elim (Option-cases item.stock_quantity) [
  | inl untracked ↦ ground (arith, untracked)
  | inr (n, tracked) ↦ elim (Bool-cases (is_wanted ps item.id)) [
    | inl wanted ↦ ground (arith, tracked, wanted)
    | inr unwanted ↦ ground (arith, tracked, unwanted)
  ]
]

-- Giving back what an order took leaves the menu as it was, where there was enough of each item.
pub restore_order-apply_order :
    (ps : List Portion) (items : List MenuItem)
    → All (IsCovered ps) items
    → restore_order ps (apply_order ps items) ≡ items
unfolding restore_order apply_order
restore_order-apply_order ps [] c = refl
restore_order-apply_order ps (i ∷ is) c =
    cc (moved-back ps i c.0, restore_order-apply_order ps is c.1)
