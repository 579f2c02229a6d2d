-- ===== src/Orders/Tests/Shop.antt =====
-- The theorems on the checkout and the cart at a small store.
use food_delivery_system.Base.{
  ℕ, ◌≡◌, refl, true, Option, none, some, List, [], ◌∷◌, find, save, ok, All, arith,
}
use food_delivery_system.Orders.Models.{PaymentMethod, OrdersDb}
use food_delivery_system.Orders.Store.{lines_of}
use food_delivery_system.Orders.Lifecycle.{get_order_for_user}
use food_delivery_system.Orders.Reorder.{CurrentItem, SkipReason, Skipped, by_id, refill, reorder}
use food_delivery_system.Orders.Reorder.Contents.{IsOrdered, reorder-contents}
use food_delivery_system.Orders.Cart.{
  StoredLine, StoredCart, Redis, MenuItemLookup, CartView, load, add_item, add_found, clear_cart,
  get_cart, view, sort_items, insert_sorted, subtotal_of,
}
use food_delivery_system.Orders.Cart.Laws.{IsRedis, Keeps, add_item-Keeps}
use food_delivery_system.Orders.Checkout.{
  Answer, accepted, CheckoutRequest, acquire_lock, release_lock, is_locked,
}
use food_delivery_system.Orders.Checkout.Locks.{release_lock-steals}
use food_delivery_system.Orders.Sample.{buyer, sample, const_hash}

abbrev line : StoredLine
line = record { menu_item_id = 11; name = "Dosa"; unit_price = 120; quantity = 2 }

abbrev dosa : MenuItemLookup
dosa = record { id = 11; restaurant_id = 7; name = "Dosa"; price = 120; is_available = true }

abbrev basket : StoredCart
basket = record { user_id = 5; restaurant_id = some 7; items = line ∷ [] }

abbrev redis : Redis
redis = record { carts = basket ∷ []; locks = [] }

redis-IsRedis : IsRedis redis
unfolding find
redis-IsRedis = record {
  keyed = (refl, tt);
  each = (record { keyed = (refl, tt); filled = (omega arith, tt); housed = refl }, tt);
}

add_item-Keeps_example : Keeps redis 5 (add_item (some (dosa ∷ [])) 5 11 3 redis)
add_item-Keeps_example = add_item-Keeps (some (dosa ∷ [])) 5 11 3 redis (omega arith) redis-IsRedis

abbrev request : CheckoutRequest
request = record { address_id = 3; price_hash = "digest"; payment_method = PaymentMethod.card }

abbrev stale_cart : CartView
stale_cart = record { restaurant_id = some 7; items = []; subtotal = 0; price_hash = "digest" }

abbrev answer : Answer
answer =
    accepted 7
      (record { menu_item_id = 11; name = "Dosa"; unit_price = 120; quantity = 2; line_total = 240 }
        ∷ [])
      240

abbrev first_lock : Redis
first_lock = record redis { locks = record { user_id = 5; expires_at = 310 } ∷ [] }

release_lock-steals_example :
    (second : Redis) × (acquire_lock 312 5 first_lock ≡ some second)
    × (acquire_lock 315 5 second ≡ none)
    × ((third : Redis) × (acquire_lock 315 5 (release_lock 5 second) ≡ some third))
unfolding acquire_lock is_locked
release_lock-steals_example =
    release_lock-steals 5 300 312 315 redis first_lock refl (omega arith) (omega arith)

-- Order 1 was of two dosas and an idli, which has sold out since; the cart holds something else.
abbrev past : OrdersDb
past = record sample {
  order_items =
      record {
        order_id = 1;
        menu_item_id = 11;
        name = "Dosa";
        unit_price = 100;
        quantity = 2;
        line_total = 200;
      }
      ∷ record {
        order_id = 1;
        menu_item_id = 12;
        name = "Idli";
        unit_price = 50;
        quantity = 3;
        line_total = 150;
      }
      ∷ [];
}

abbrev current_items : List CurrentItem
current_items =
    record { id = 11; is_available = true; stock_quantity = some 9 }
    ∷ record { id = 12; is_available = true; stock_quantity = some 2 }
    ∷ []

abbrev leftovers : Redis
leftovers = record {
  carts =
      record { user_id = 5; restaurant_id = some 8; items = record line { menu_item_id = 90 } ∷ [] }
      ∷ [];
  locks = [];
}

abbrev item_answers : ℕ → Option (List MenuItemLookup)
item_answers id = some (dosa ∷ [])

abbrev reordered : CartView × List Skipped
reordered = (
  record {
    restaurant_id = some 7;
    items =
        record {
          menu_item_id = 11;
          name = "Dosa";
          unit_price = 120;
          quantity = 2;
          line_total = 240;
        }
        ∷ [];
    subtotal = 240;
    price_hash = "digest";
  },
  record { name = "Idli"; reason = SkipReason.sold_out } ∷ [],
)

reorder-works :
    (reorder const_hash (some current_items) item_answers past 300 buyer 1 leftovers).0
    ≡ ok reordered
unfolding reorder refill by_id add_item add_found get_order_for_user find save clear_cart get_cart
    view sort_items insert_sorted subtotal_of
reorder-works = refl

reorder-contents_example :
    let after =
      (reorder const_hash (some current_items) item_answers past 300 buyer 1 leftovers).1 in
    All (IsOrdered (lines_of 1 past.order_items)) (load 5 after).items
    × (reordered.0 ≡ get_cart const_hash 5 after)
reorder-contents_example =
    reorder-contents const_hash (some current_items) item_answers past 300 buyer 1 leftovers
      reordered reorder-works
