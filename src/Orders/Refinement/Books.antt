-- ===== src/Orders/Refinement/Books.antt =====
-- A handler refines the abstract step if its writes are an effect that keeps the books.
use mathlib.Core.Path.{subst}
use food_delivery_system.Base.{ℕ, ◌≡◌, sym, find-key, Option, some, find}
use food_delivery_system.Orders.Models.{Actor, Reason, Order, OrdersDb}
use food_delivery_system.Orders.Store.{order_key}
use food_delivery_system.Orders.Moves.{Change, moved}
use food_delivery_system.Orders.Refinement.Effects.{
  effect, transition, Extra, messages, IsBooked, effect-Move,
}

-- To give the writes of a handler as an effect, and show that they keep the books.
pub Change-of_effect :
    {db db' : OrdersDb} (id : ℕ) (before after : Order) (actor : Actor) (reason : Option Reason)
    (at : ℕ) (x : Extra)
    → find order_key id db.orders ≡ some before
    → db' ≡ effect db after (transition before after.status actor reason at) (messages x after db)
    → IsBooked before after x
    → Change db db'
Change-of_effect {db} id before after actor reason at x found e b = subst (Change db) (sym e) (
    moved (
      effect-Move db before after actor reason at x
        (subst (λ j. find order_key j db.orders ≡ some before)
          (sym (find-key order_key id before db.orders found)) found)
        b))
