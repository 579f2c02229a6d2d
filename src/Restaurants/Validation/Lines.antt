-- ===== src/Restaurants/Validation/Lines.antt =====
-- The loop over an order's lines, against what each line must be.
use food_delivery_system.Base.{
  ℕ, ◌≡◌, refl, true, false, not, some, List, [], ◌∷◌, ◌+◌, ◌*◌, Result, ok, err, All, find,
  find-key, map, ◌==◌, ◌||◌, arith, Bool-cases, Option-cases, inl, inr,
}
use food_delivery_system.Restaurants.Models.{MenuItem, item_key}
use food_delivery_system.Restaurants.Inventory.{shortfall}
use food_delivery_system.Restaurants.Validation.{
  OrderLine, ValidatedLine, Code, validated_line, check_item, and_then, check_lines, portion,
  line_portion,
}

-- A line that can be sold: its item is on the menu, available, in stock, and at the price quoted.
pub record IsSellable (rows : List MenuItem) (l : OrderLine) : Type 0 where
  pub item : MenuItem
  pub listed : find item_key l.menu_item_id rows ≡ some item
  pub available : item.is_available ≡ true
  pub in_stock : shortfall item l.quantity ≡ false
  pub at_price : item.price ≡ l.unit_price

-- What the quoted prices add up to.
unfoldable pub quoted_total : List OrderLine → ℕ
quoted_total [] = 0
quoted_total (l ∷ ls) = l.unit_price * l.quantity + quoted_total ls

record IsFirst (c : Result Code ValidatedLine) (rest : Result Code (List ValidatedLine × ℕ))
    (vs : List ValidatedLine) (subtotal : ℕ) : Type 0 where
  head : ValidatedLine
  tail : List ValidatedLine
  tail_total : ℕ
  at_head : c ≡ ok head
  at_tail : rest ≡ ok (tail, tail_total)
  lines : vs ≡ head ∷ tail
  total : subtotal ≡ head.line_total + tail_total

and_then-IsFirst :
    (c : Result Code ValidatedLine) (rest : Result Code (List ValidatedLine × ℕ))
    (vs : List ValidatedLine) (subtotal : ℕ)
    → and_then c rest ≡ ok (vs, subtotal)
    → IsFirst c rest vs subtotal
and_then-IsFirst (err c) rest vs subtotal e = cc
and_then-IsFirst (ok v) (err c) vs subtotal e = cc
and_then-IsFirst (ok v) (ok (tail, tail_total)) vs subtotal e = record {
  head = v;
  tail = tail;
  tail_total = tail_total;
  at_head = refl;
  at_tail = refl;
  lines = ground arith;
  total = ground arith;
}

check_item-IsSellable :
    (rows : List MenuItem) (l : OrderLine) (v : ValidatedLine)
    → check_item l (find item_key l.menu_item_id rows) ≡ ok v
    → (s : IsSellable rows l) × (v ≡ validated_line s.item l)
check_item-IsSellable rows l v e = elim (Option-cases (find item_key l.menu_item_id rows)) [
  | inl missing ↦ ground (arith, missing)
  | inr (i, listed) ↦ elim (Bool-cases (not i.is_available || shortfall i l.quantity)) [
    | inl bad ↦ ground (arith, listed, bad)
    | inr good ↦ elim (Bool-cases (i.price == l.unit_price)) [
      | inl same ↦ (
        record {
          item = i;
          listed = listed;
          available = ground arith;
          in_stock = ground arith;
          at_price = ground arith;
        },
        ground (arith, listed, good, same),
      )
      | inr other ↦ ground (arith, listed, good, other)
    ]
  ]
]

-- A first line and the rest, of lines that were let through.
pub record IsSplit (rows : List MenuItem) (l : OrderLine) (ls : List OrderLine)
    (vs : List ValidatedLine) (subtotal : ℕ) : Type 0 where
  pub sellable : IsSellable rows l
  pub tail : List ValidatedLine
  pub tail_total : ℕ
  pub at_tail : check_lines rows ls ≡ ok (tail, tail_total)
  pub lines : vs ≡ validated_line sellable.item l ∷ tail
  pub total : subtotal ≡ sellable.item.price * l.quantity + tail_total

pub check_lines-IsSplit :
    (rows : List MenuItem) (l : OrderLine) (ls : List OrderLine) (vs : List ValidatedLine)
    (subtotal : ℕ)
    → check_lines rows (l ∷ ls) ≡ ok (vs, subtotal)
    → IsSplit rows l ls vs subtotal
unfolding check_lines
check_lines-IsSplit rows l ls vs subtotal e =
    let f = and_then-IsFirst _ (check_lines rows ls) vs subtotal e in
    let s = check_item-IsSellable rows l f.head f.at_head in
    record {
      sellable = s.0;
      tail = f.tail;
      tail_total = f.tail_total;
      at_tail = f.at_tail;
      lines = ground (arith, f.lines, s.1);
      total = ground (arith, f.total, s.1);
    }

-- Lines that the loop lets through can all be sold, and the subtotal is what was quoted.
pub check_lines_sound :
    (rows : List MenuItem) (ls : List OrderLine) (vs : List ValidatedLine) (subtotal : ℕ)
    → check_lines rows ls ≡ ok (vs, subtotal)
    → All (IsSellable rows) ls × (subtotal ≡ quoted_total ls)
unfolding check_lines quoted_total
check_lines_sound rows [] vs subtotal e = (tt, ground arith)
check_lines_sound rows (l ∷ ls) vs subtotal e =
    let s = check_lines-IsSplit rows l ls vs subtotal e in
    let r = check_lines_sound rows ls s.tail s.tail_total s.at_tail in
    ((s.sellable, r.0), ground (arith, s.total, r.1, s.sellable.at_price))

check_item_complete :
    (rows : List MenuItem) (l : OrderLine) (s : IsSellable rows l)
    → check_item l (find item_key l.menu_item_id rows) ≡ ok (validated_line s.item l)
check_item_complete rows l s = ground (arith, s.listed, s.available, s.in_stock, s.at_price)

-- Lines that can all be sold pass the loop, with what was quoted as the subtotal.
pub check_lines_complete :
    (rows : List MenuItem) (ls : List OrderLine)
    → All (IsSellable rows) ls
    → (vs : List ValidatedLine) × (check_lines rows ls ≡ ok (vs, quoted_total ls))
unfolding check_lines quoted_total
check_lines_complete rows [] h = ([], refl)
check_lines_complete rows (l ∷ ls) h =
    let r = check_lines_complete rows ls h.1 in
    (
      validated_line h.0.item l ∷ r.0,
      ground (arith, check_item_complete rows l h.0, r.1, h.0.at_price),
    )

-- What is reserved is what the request asked for.
pub check_lines-portions :
    (rows : List MenuItem) (ls : List OrderLine) (vs : List ValidatedLine) (subtotal : ℕ)
    → check_lines rows ls ≡ ok (vs, subtotal)
    → map portion vs ≡ map line_portion ls
unfolding check_lines
check_lines-portions rows [] vs subtotal e = ground arith
check_lines-portions rows (l ∷ ls) vs subtotal e =
    let s = check_lines-IsSplit rows l ls vs subtotal e in
    ground (
      arith,
      s.lines,
      check_lines-portions rows ls s.tail s.tail_total s.at_tail,
      find-key item_key l.menu_item_id s.sellable.item rows s.sellable.listed,
    )
