-- ===== src/Orders/Reorder/Contents.antt =====
-- What a reorder puts in the cart.
use mathlib.Core.Path.{subst}
use food_delivery_system.Base.{
  ℕ, ◌≡◌, refl, sym, ◌∙◌, ap, true, not, Option, none, some, List, [], ◌∷◌, String, Result, ok, err,
  Action, pure, ◌>>=◌, find, find-key, find-save, select, any, ◌==◌, begin, All, All-map, All-save,
  arith, Bool-cases, Option-cases, inl, inr, bind_keeps, Result-cases,
}
use food_delivery_system.Shared.Identity.{Identity}
use food_delivery_system.Orders.Models.{Order, OrderItem, OrdersDb}
use food_delivery_system.Orders.Store.{AppException, lines_of}
use food_delivery_system.Orders.Lifecycle.{get_order_for_user}
use food_delivery_system.Orders.Cart.{
  StoredLine, line_key, StoredCart, cart_key, Redis, CartView, MenuItemLookup, load, store,
  is_empty, clear_cart, is_elsewhere, add_found, add_item, get_cart,
}
use food_delivery_system.Orders.Reorder.{
  CurrentItem, current_key, SkipReason, Skipped, by_id, add_or_skip, verdict, refill, prepend,
  rebuild, reorder_found, reorder,
}

-- A line of a cart is of an item of the order.
abbrev pub IsOrdered : List OrderItem → StoredLine → Type 0
IsOrdered lines l = any (λ line. line.menu_item_id == l.menu_item_id) lines ≡ true

load-user : (u : ℕ) (r : Redis) → (load u r).user_id ≡ u
load-user u r = elim (Option-cases (find cart_key u r.carts)) [
  | inl none_yet ↦ rw none_yet refl
  | inr (c, found) ↦ rw found (find-key cart_key u c r.carts found)
]

load-store : (u : ℕ) (c : StoredCart) (r : Redis) → c.user_id ≡ u → load u (store c r) ≡ c
load-store u c r same = ground (arith, same, find-save cart_key u c r.carts)

module _ (lines : List OrderItem) (u : ℕ) where
  -- The user's cart holds nothing else.
  abbrev Fits : Redis → Type 0
  Fits r = All (IsOrdered lines) (load u r).items

  stored-Fits :
      (c : StoredCart) (r : Redis)
      → c.user_id ≡ u
      → All (IsOrdered lines) c.items
      → Fits (store c r)
  stored-Fits c r same h =
      subst (λ x. All (IsOrdered lines) x.items) (sym (load-store u c r same)) h

  added-Fits :
      (item : MenuItemLookup) (m q : ℕ) (r : Redis)
      → any (λ line. line.menu_item_id == m) lines ≡ true
      → Fits r
      → Fits (add_found u m q item r).1
  unfolding add_found
  added-Fits item m q r in_order h = elim (Bool-cases item.is_available) [
    | inr gone ↦ rw gone h
    | inl here ↦ elim (Bool-cases (is_elsewhere (load u r).restaurant_id item.restaurant_id)) [
      | inl elsewhere ↦ rw (here, elsewhere) h
      | inr fits ↦
          rw (here, fits)
            (stored-Fits _ r (load-user u r)
              (All-save line_key (IsOrdered lines) _ (load u r).items h in_order))
    ]
  ]

  add_item-Fits :
      (rows : Option (List MenuItemLookup)) (m q : ℕ) (r : Redis)
      → any (λ line. line.menu_item_id == m) lines ≡ true
      → Fits r
      → Fits (add_item rows u m q r).1
  unfolding add_item
  add_item-Fits none m q r in_order h = h
  add_item-Fits (some []) m q r in_order h = h
  add_item-Fits (some (item ∷ _)) m q r in_order h = added-Fits item m q r in_order h

  module _ (answers : ℕ → Option (List MenuItemLookup)) where
    add_or_skip-Fits :
        (line : OrderItem) (v : Option SkipReason) (r : Redis)
        → any (λ l. l.menu_item_id == line.menu_item_id) lines ≡ true
        → Fits r
        → Fits (add_or_skip answers u line v r).1
    add_or_skip-Fits line none r in_order h =
        bind_keeps Fits (add_item (answers line.menu_item_id) u line.menu_item_id line.quantity)
          (λ _. pure []) r
          (add_item-Fits (answers line.menu_item_id) line.menu_item_id line.quantity r in_order h)
          (λ _ t k. k)
    add_or_skip-Fits line (some reason) r in_order h = h

    refill-Fits :
        (current : List CurrentItem) (rest : List OrderItem) (r : Redis)
        → All (λ line. any (λ l. l.menu_item_id == line.menu_item_id) lines ≡ true) rest
        → Fits r
        → Fits (refill answers u current rest r).1
    unfolding refill
    refill-Fits current [] r part h = h
    refill-Fits current (line ∷ rest) r part h =
        bind_keeps Fits
          (add_or_skip answers u line (verdict line (find current_key line.menu_item_id current)))
          (λ skipped. refill answers u current rest >>= λ more. pure (prepend skipped more)) r
          (add_or_skip-Fits line (verdict line (find current_key line.menu_item_id current)) r
            part.0 h)
          (λ skipped t k.
            bind_keeps Fits (refill answers u current rest) (λ more. pure (prepend skipped more)) t
              (refill-Fits current rest t part.1 k) (λ _ x z. z))

  cleared-Fits : (r : Redis) → Fits (clear_cart u r)
  unfolding clear_cart find
  cleared-Fits r = rw (none_left r.carts) tt
    where
      none_left :
          (carts : List StoredCart)
          → find cart_key u (select (λ c. not (c.user_id == u)) carts) ≡ none
      none_left [] = refl
      none_left (c ∷ cs) = ground (arith, none_left cs)

each_ordered :
    (lines : List OrderItem)
    → All (λ line. any (λ l. l.menu_item_id == line.menu_item_id) lines ≡ true) lines
unfolding any
each_ordered [] = tt
each_ordered (x ∷ xs) = (ground arith, All-map (λ line h. ground (arith, h)) xs (each_ordered xs))

module _ (sha256 : List (ℕ × ℕ) → String) (answers : ℕ → Option (List MenuItemLookup)) (u : ℕ)
    (lookup : Option (List CurrentItem)) (lines : List OrderItem) (r : Redis)
    (v : CartView × List Skipped) where
  -- The cart that is shown is the stored one, and of items of the order only.
  abbrev pub IsReordered : Action AppException Redis (CartView × List Skipped) → Type 0
  IsReordered m = All (IsOrdered lines) (load u (m r).1).items × (v.0 ≡ get_cart sha256 u (m r).1)

  rebuilt :
      (current : List CurrentItem)
      → (rebuild answers u sha256 current lines r).0 ≡ ok v
      → IsReordered (rebuild answers u sha256 current lines)
  rebuilt current e = (
    bind_keeps (Fits lines u) (refill answers u current lines)
        (λ skipped x. (ok (get_cart sha256 u x, skipped), x)) (clear_cart u r)
        (refill-Fits lines u answers current lines (clear_cart u r) (each_ordered lines)
          (cleared-Fits lines u r))
        (λ _ t k. k),
    elim (Result-cases (refill answers u current lines (clear_cart u r)).0) [
      | inl won ↦ ground (arith, won.1, e)
      | inr lost ↦ ground (arith, lost.1, e)
    ],
  )

  reordered :
      (found : Result AppException Order)
      → (reorder_found answers u sha256 lookup lines found r).0 ≡ ok v
      → IsReordered (reorder_found answers u sha256 lookup lines found)
  reordered (err e) h = cc
  reordered (ok o) h = elim (Bool-cases (o.customer_id == u)) [
    | inr other ↦ ground (arith, other, h)
    | inl own ↦ elim (Bool-cases (is_empty lines)) [
      | inl nothing ↦ ground (arith, own, nothing, h)
      | inr some_lines ↦ elim (Option-cases lookup) [
        | inl failed ↦ ground (arith, own, some_lines, failed, h)
        | inr (rows, answer) ↦
            let ran : reorder_found answers u sha256 lookup lines (ok o) r
                ≡ rebuild answers u sha256 (by_id rows []) lines r =
              rw (own, some_lines, answer) refl in
            subst (λ x. All (IsOrdered lines) (load u x.1).items × (v.0 ≡ get_cart sha256 u x.1))
              (sym ran) (rebuilt (by_id rows []) (sym (ap (λ x. x.0) ran) ∙ h))
      ]
    ]
  ]

-- After a successful reorder, whatever the customer's cart held before, it holds items of that order only, and the
-- cart that is shown is the stored one.
pub reorder-contents :
    (sha256 : List (ℕ × ℕ) → String) (lookup : Option (List CurrentItem))
    (answers : ℕ → Option (List MenuItemLookup))
    → (db : OrdersDb) (now : ℕ) (user : Identity) (order_id : ℕ) (r : Redis)
      (v : CartView × List Skipped)
    → (reorder sha256 lookup answers db now user order_id r).0 ≡ ok v
    → let after = (reorder sha256 lookup answers db now user order_id r).1 in
      All (IsOrdered (lines_of order_id db.order_items)) (load user.user_id after).items
      × (v.0 ≡ get_cart sha256 user.user_id after)
unfolding reorder
reorder-contents sha256 lookup answers db now user order_id r v h =
    reordered sha256 answers user.user_id lookup (lines_of order_id db.order_items) r v
      (get_order_for_user user order_id (begin db now)).0 h
