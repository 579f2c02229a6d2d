-- ===== src/Orders/Refinement/Restaurant.antt =====
-- The restaurant's handlers refine the abstract step.
use food_delivery_system.Base.{
  ℕ, ◌≡◌, refl, ◌⊎◌, true, false, Option, none, some, inl, inr, save-save, begin, if◌then◌else◌,
  arith,
}
use food_delivery_system.Shared.Identity.{Identity}
use food_delivery_system.Orders.Models.{
  OrderStatus, restaurant_accepted, cancelled, rejected, RefundStatus, full, Actor, Reason, Order,
  settle, refund, OrdersDb,
}
use food_delivery_system.Orders.StateMachine.{allowed, refund_on_cancel}
use food_delivery_system.Orders.Store.{order_key}
use food_delivery_system.Orders.Actions.{is_cancelled, is_delivered, is_full}
use food_delivery_system.Orders.Lifecycle.{
  accept_by_restaurant, reject_by_restaurant, advance_status, with_refund,
}
use food_delivery_system.Orders.Moves.{Change, same}
use food_delivery_system.Orders.Refinement.Gate.{
  Gate, missing, unknown_restaurant, stranger, illegal, passed, gate,
}
use food_delivery_system.Orders.Refinement.Books.{Change-of_effect}
use food_delivery_system.Orders.Refinement.Effects.{Extra, quiet, commands, IsBooked}

accept_by_restaurant-gated :
    (user : Identity) (id : ℕ) (db : OrdersDb) (now : ℕ)
    → Gate user id restaurant_accepted db
    → Change db (accept_by_restaurant user id (begin db now)).1.durable
unfolding accept_by_restaurant
accept_by_restaurant-gated user id db now (missing e) = same (ground arith)
accept_by_restaurant-gated user id db now (unknown_restaurant o e u) = same (ground arith)
accept_by_restaurant-gated user id db now (stranger o r e f m) = same (ground arith)
accept_by_restaurant-gated user id db now (illegal o r e f m l) = same (ground arith)
accept_by_restaurant-gated user id db now (passed o r e f m l) =
    Change-of_effect id o (record o { status = restaurant_accepted; updated_at = now })
      Actor.restaurant none now quiet e (ground arith) (ground (arith, l))

reject_by_restaurant-gated :
    (user : Identity) (id : ℕ) (reason : Option Reason) (db : OrdersDb) (now : ℕ)
    → Gate user id rejected db
    → Change db (reject_by_restaurant user id reason (begin db now)).1.durable
unfolding reject_by_restaurant
reject_by_restaurant-gated user id reason db now (missing e) = same (ground arith)
reject_by_restaurant-gated user id reason db now (unknown_restaurant o e u) = same (ground arith)
reject_by_restaurant-gated user id reason db now (stranger o r e f m) = same (ground arith)
reject_by_restaurant-gated user id reason db now (illegal o r e f m l) = same (ground arith)
reject_by_restaurant-gated user id reason db now (passed o r e f m l) =
    let first = record o { status = rejected; updated_at = now } in
    let after =
      record (with_refund full
        (record first { cancelled_by = some Actor.restaurant; cancel_reason = reason })) {
          updated_at = now;
        } in
    Change-of_effect id o after Actor.restaurant reason now (commands refund) e
      (ground (arith, save-save order_key first after db.orders)) (ground (arith, l))

RefundStatus-cases : (r : RefundStatus) → (r ≡ full) ⊎ (is_full r ≡ false)
RefundStatus-cases full = inl refl
RefundStatus-cases _ = inr refl

cancel_extra : RefundStatus → Extra
cancel_extra outcome = if is_full outcome then commands refund else quiet

-- The cancelled row of a restaurant's cancellation.
cancelled_row : Order → ℕ → Order
cancelled_row o now =
    record (with_refund (refund_on_cancel o.status Actor.restaurant)
      (record o { status = cancelled; updated_at = now; cancelled_by = some Actor.restaurant })) {
        updated_at = now;
      }

cancelled_row-IsBooked :
    (o : Order) (now : ℕ)
    → allowed o.status cancelled ≡ true
    → IsBooked o (cancelled_row o now) (cancel_extra (refund_on_cancel o.status Actor.restaurant))
unfolding cancelled_row cancel_extra
cancelled_row-IsBooked o now l =
    elim (RefundStatus-cases (refund_on_cancel o.status Actor.restaurant)) [
      | inl f ↦ ground (arith, l, f)
      | inr n ↦ ground (arith, l, n)
    ]

advance_extra : OrderStatus → Extra
advance_extra to = if is_delivered to then commands settle else quiet

advance_status-cancels :
    (user : Identity) (id : ℕ) (db : OrdersDb) (now : ℕ)
    → Gate user id cancelled db
    → Change db (advance_status user id cancelled (begin db now)).1.durable
unfolding advance_status cancelled_row cancel_extra
advance_status-cancels user id db now (missing e) = same (ground arith)
advance_status-cancels user id db now (unknown_restaurant o e u) = same (ground arith)
advance_status-cancels user id db now (stranger o r e f m) = same (ground arith)
advance_status-cancels user id db now (illegal o r e f m l) = same (ground arith)
advance_status-cancels user id db now (passed o r e f m l) =
    Change-of_effect id o (cancelled_row o now) Actor.restaurant none now
      (cancel_extra (refund_on_cancel o.status Actor.restaurant)) e
      (elim (RefundStatus-cases (refund_on_cancel o.status Actor.restaurant)) [
        | inl g ↦ ground (
          arith,
          save-save order_key (record o { status = cancelled; updated_at = now })
              (cancelled_row o now) db.orders,
        )
        | inr n ↦ ground (
          arith,
          save-save order_key (record o { status = cancelled; updated_at = now })
              (cancelled_row o now) db.orders,
        )
      ])
      (cancelled_row-IsBooked o now l)

advance_status-advances :
    (user : Identity) (id : ℕ) (to : OrderStatus) (db : OrdersDb) (now : ℕ)
    → is_cancelled to ≡ false
    → Gate user id to db
    → Change db (advance_status user id to (begin db now)).1.durable
unfolding advance_status advance_extra
advance_status-advances user id to db now nc (missing e) = same (ground arith)
advance_status-advances user id to db now nc (unknown_restaurant o e u) = same (ground arith)
advance_status-advances user id to db now nc (stranger o r e f m) = same (ground arith)
advance_status-advances user id to db now nc (illegal o r e f m l) = same (ground arith)
advance_status-advances user id to db now nc (passed o r e f m l) =
    Change-of_effect id o (record o { status = to; updated_at = now }) Actor.restaurant none now
      (advance_extra to) e (ground arith) (ground (arith, l))

-- Any status change by a restaurant changes nothing, or is one legal move of one order with its audit
-- row and the payment commands that it calls for.
pub advance_status-Change :
    (user : Identity) (id : ℕ) (to : OrderStatus) (db : OrdersDb) (now : ℕ)
    → Change db (advance_status user id to (begin db now)).1.durable
advance_status-Change user id cancelled db now =
    advance_status-cancels user id db now (gate user id cancelled db)
advance_status-Change user id to db now =
    advance_status-advances user id to db now refl (gate user id to db)

-- Any acceptance by a restaurant changes nothing, or is one legal move of one order with its audit
-- row and the payment commands that it calls for.
pub accept_by_restaurant-Change :
    (user : Identity) (id : ℕ) (db : OrdersDb) (now : ℕ)
    → Change db (accept_by_restaurant user id (begin db now)).1.durable
accept_by_restaurant-Change user id db now =
    accept_by_restaurant-gated user id db now (gate user id restaurant_accepted db)

-- Any rejection by a restaurant changes nothing, or is one legal move of one order with its audit
-- row and the payment commands that it calls for.
pub reject_by_restaurant-Change :
    (user : Identity) (id : ℕ) (reason : Option Reason) (db : OrdersDb) (now : ℕ)
    → Change db (reject_by_restaurant user id reason (begin db now)).1.durable
reject_by_restaurant-Change user id reason db now =
    reject_by_restaurant-gated user id reason db now (gate user id rejected db)
