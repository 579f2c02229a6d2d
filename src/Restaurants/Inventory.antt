-- ===== src/Restaurants/Inventory.antt =====
-- services/restaurants/app/inventory.py: stock movement for menu items. A portion is what the module reads
-- of an order line, the item and the quantity. Stock is never negative in the table.
pub mod Laws
use food_delivery_system.Base.{
  ℕ, Bool, false, Option, none, some, List, [], ◌∷◌, ◌+◌, ◌-◌, map, any, ltb, ◌==◌, if◌then◌else◌,
}
use food_delivery_system.Restaurants.Models.{MenuItem}

pub record Portion : Type 0 where
  pub menu_item_id : ℕ
  pub quantity : ℕ

abbrev pub portion_key : Portion → ℕ
portion_key p = p.menu_item_id

-- An item without a count is not tracked, and never short.
unfoldable pub shortfall : MenuItem → ℕ → Bool
shortfall item quantity = elim item.stock_quantity [ none ↦ false | some n ↦ ltb n quantity ]

-- `wanted[id]`, the sum over the order's lines of the item.
unfoldable pub total_of : ℕ → List Portion → ℕ
total_of id [] = 0
total_of id (p ∷ ps) = if p.menu_item_id == id then p.quantity + total_of id ps else total_of id ps

abbrev pub is_wanted : List Portion → ℕ → Bool
is_wanted ps id = any (λ p. p.menu_item_id == id) ps

-- A tracked item's new count; one that the query does not return stays as it is.
unfoldable pub moved : (ℕ → ℕ → ℕ) → List Portion → MenuItem → MenuItem
moved step ps item = elim item.stock_quantity [
  | none ↦ item
  | some n ↦
      if is_wanted ps item.id
      then record item { stock_quantity = some (step n (total_of item.id ps)) }
      else item
]

-- `_move`, with the sign as what it does to a count.
abbrev pub move : (ℕ → ℕ → ℕ) → List Portion → List MenuItem → List MenuItem
move step ps items = map (moved step ps) items

-- `max(0, n - total)` is subtraction that stops at 0.
unfoldable pub apply_order : List Portion → List MenuItem → List MenuItem
apply_order ps items = move (λ n total. n - total) ps items

unfoldable pub restore_order : List Portion → List MenuItem → List MenuItem
restore_order ps items = move (λ n total. n + total) ps items
