-- ===== src/Orders/Refinement/Customer.antt =====
-- The customer's handler refines the abstract step.
use mathlib.Core.Path.{subst}
use food_delivery_system.Base.{
  ap, Result-cases, ℕ, ◌≡◌, sym, true, false, none, some, inl, inr, find, save-save, begin, Session,
  ok, err, if◌then◌else◌, arith, Bool-cases,
}
use food_delivery_system.Shared.Identity.{Identity}
use food_delivery_system.Orders.Models.{OrderStatus, cancelled, Actor, Order, refund, OrdersDb}
use food_delivery_system.Orders.StateMachine.{allowed, refund_on_cancel, is_pre_prep, is_unpaid}
use food_delivery_system.Orders.Store.{order_key, Call, AppException}
use food_delivery_system.Orders.Lifecycle.{
  get_order_for_user, cancel_as_read, cancel_by_customer, with_refund,
}
use food_delivery_system.Orders.Moves.{Change, same}
use food_delivery_system.Orders.Refinement.Books.{Change-of_effect}
use food_delivery_system.Orders.Refinement.Effects.{
  effect, transition, Extra, quiet, commands, messages, IsBooked,
}

-- What a customer's cancellation makes of the row.
unfoldable pub customer_cancelled : Order → ℕ → Order
customer_cancelled o now =
    record (with_refund (refund_on_cancel o.status Actor.customer)
      (record o { status = cancelled; updated_at = now; cancelled_by = some Actor.customer })) {
        updated_at = now;
      }

unfoldable pub customer_extra : Order → Extra
customer_extra o = if is_unpaid o.status then quiet else commands refund

pub customer_cancelled-IsBooked :
    (o : Order) (now : ℕ)
    → allowed o.status cancelled ≡ true
    → IsBooked o (customer_cancelled o now) (customer_extra o)
unfolding customer_cancelled customer_extra refund_on_cancel
customer_cancelled-IsBooked o now l = elim (Bool-cases (is_unpaid o.status)) [
  | inl unpaid ↦ ground (arith, l, unpaid)
  | inr taken ↦ ground (arith, l, taken)
]

-- A status before preparation can be cancelled.
pub pre_prep-allowed : (s : OrderStatus) → is_pre_prep s ≡ true → allowed s cancelled ≡ true
unfolding allowed
pre_prep-allowed s h = ground arith

-- The writes of a cancellation, on the order as it was read.
pub cancel_as_read-effect :
    (o : Order) (s : Session OrdersDb Call)
    → is_pre_prep o.status ≡ true
    → (cancel_as_read o s).1.durable
      ≡ effect s.current
          (customer_cancelled o s.now)
          (transition o cancelled Actor.customer none s.now)
          (messages (customer_extra o) (customer_cancelled o s.now) s.current)
unfolding cancel_as_read customer_cancelled customer_extra refund_on_cancel
cancel_as_read-effect o s h = elim (Bool-cases (is_unpaid o.status)) [
  | inl unpaid ↦ ground (
    arith,
    pre_prep-allowed o.status h,
    save-save order_key (record o { status = cancelled; updated_at = s.now })
        (customer_cancelled o s.now) s.current.orders,
  )
  | inr taken ↦ ground (
    arith,
    pre_prep-allowed o.status h,
    save-save order_key (record o { status = cancelled; updated_at = s.now })
        (customer_cancelled o s.now) s.current.orders,
  )
]

cancel_as_read-refused :
    (o : Order) (s : Session OrdersDb Call)
    → is_pre_prep o.status ≡ false
    → (cancel_as_read o s).1 ≡ s
unfolding cancel_as_read
cancel_as_read-refused o s h = ground arith

-- A session that reads the order and does nothing else.
get_order_for_user-reads :
    (user : Identity) (id : ℕ) (s : Session OrdersDb Call) → (get_order_for_user user id s).1 ≡ s
unfolding get_order_for_user
get_order_for_user-reads user id s = ground arith

get_order_for_user-finds :
    (user : Identity) (id : ℕ) (s : Session OrdersDb Call) (o : Order)
    → (get_order_for_user user id s).0 ≡ ok o
    → find order_key id s.current.orders ≡ some o
unfolding get_order_for_user
get_order_for_user-finds user id s o h = ground arith

-- The handler cancels what it has read, or ends in the session that it began.
cancel_by_customer-reads :
    (user : Identity) (id : ℕ) (s : Session OrdersDb Call) (o : Order)
    → (get_order_for_user user id s).0 ≡ ok o
    → (cancel_by_customer user id s).1 ≡ (cancel_as_read o s).1
unfolding cancel_by_customer
cancel_by_customer-reads user id s o h = ground (arith, get_order_for_user-reads user id s)

cancel_by_customer-refuses :
    (user : Identity) (id : ℕ) (s : Session OrdersDb Call) (e : AppException)
    → (get_order_for_user user id s).0 ≡ err e
    → (cancel_by_customer user id s).1 ≡ s
unfolding cancel_by_customer
cancel_by_customer-refuses user id s e h = ground (arith, get_order_for_user-reads user id s)

customer_cancelled-status : (o : Order) (now : ℕ) → (customer_cancelled o now).status ≡ cancelled
unfolding customer_cancelled refund_on_cancel
customer_cancelled-status o now = ground arith

cancel_as_read-Change :
    (id : ℕ) (o : Order) (db : OrdersDb) (now : ℕ)
    → find order_key id db.orders ≡ some o
    → Change db (cancel_as_read o (begin db now)).1.durable
cancel_as_read-Change id o db now e = elim (Bool-cases (is_pre_prep o.status)) [
  | inr late ↦ same (ap (λ s. s.durable) (cancel_as_read-refused o (begin db now) late))
  | inl early ↦
      Change-of_effect {db = db} id o (customer_cancelled o now) Actor.customer none now
        (customer_extra o) e
        (simp (customer_cancelled-status o now) (cancel_as_read-effect o (begin db now) early))
        (customer_cancelled-IsBooked o now (pre_prep-allowed o.status early))
]

-- Any cancellation by a customer changes nothing, or is one legal move of one order with its audit
-- row and the payment command that it calls for.
pub cancel_by_customer-Change :
    (user : Identity) (id : ℕ) (db : OrdersDb) (now : ℕ)
    → Change db (cancel_by_customer user id (begin db now)).1.durable
cancel_by_customer-Change user id db now =
    elim (Result-cases (get_order_for_user user id (begin db now)).0) [
      | inr (x, h) ↦
          same (ap (λ s. s.durable) (cancel_by_customer-refuses user id (begin db now) x h))
      | inl (o, h) ↦
          subst (λ s. Change db s.durable)
            (sym (cancel_by_customer-reads user id (begin db now) o h))
            (cancel_as_read-Change id o db now
              (get_order_for_user-finds user id (begin db now) o h))
    ]
