-- ===== src/Orders/Checkout/Placed.antt =====
-- A placed order: the new row with its baseline audit row, then one or two legal moves.
use mathlib.Core.Path.{subst}
use food_delivery_system.Base.{
  ℕ, ◌+◌, ◌≤◌, ◌≡◌, refl, sym, false, Option, none, some, List, ◌∷◌, ◌++◌, map, ◌⊎◌, inl, inr, find,
  find-save, find-key, save, save-save, save-IsKeyed, opened, ◌==◌, if◌then◌else◌, arith,
  Bool-cases,
}
use food_delivery_system.Shared.Identity.{Identity}
use food_delivery_system.Orders.Models.{
  created, payment_pending, payment_success, PaymentMethod, cod, card, success, Actor,
  cod_to_be_collected, Order, OrderStatusEvent, RestaurantSnapshot, OrdersDb,
}
use food_delivery_system.Orders.StateMachine.{allowed}
use food_delivery_system.Orders.Store.{order_key, restaurant_key, Call}
use food_delivery_system.Orders.Invariant.{OrderIsConsistent, IsUnused, IsConsistent}
use food_delivery_system.Orders.Moves.{Move-IsConsistent, latest-cons}
use food_delivery_system.Orders.Refinement.Effects.{
  effect, transition, Extra, silent, quiet, messages, is_refund, is_settle, IsBooked, effect-Move,
}
use food_delivery_system.Orders.Refinement.Payment.{paid_extra}
use food_delivery_system.Orders.Checkout.{
  CheckoutRequest, ValidatedOrder, new_order, order_line, place,
}

PaymentMethod-cases : (m : PaymentMethod) → (m ≡ cod) ⊎ (m ≡ card)
PaymentMethod-cases cod = inl refl
PaymentMethod-cases card = inr refl

abbrev baseline : Order → OrderStatusEvent
baseline o = record {
  order_id = o.id;
  from_status = none;
  to_status = created;
  actor = Actor.system;
  reason = none;
  at = o.created_at;
}

-- The database after the insert.
abbrev inserted : OrdersDb → Order → ValidatedOrder → OrdersDb
inserted db o v = record db {
  orders = save order_key o db.orders;
  next_order_id = o.id + 1;
  order_items = db.order_items ++ map (order_line o.id) v.items;
  status_events = baseline o ∷ db.status_events;
}

module _ (db : OrdersDb) (user : Identity) (request : CheckoutRequest) (v : ValidatedOrder)
    (now : ℕ) (sent : List Call) (c : IsConsistent db) where
  abbrev fresh_order : Order
  fresh_order = new_order user request v db.next_order_id now

  free : IsUnused db db.next_order_id
  free = c.unused db.next_order_id (omega arith)

  fresh-consistent : OrderIsConsistent (inserted db fresh_order v) fresh_order
  fresh-consistent = record {
    audited = rw latest-cons (ground arith);
    refunds = free.no_refund;
    settles = free.no_settle;
    amount = refl;
    closed = λ h. cc;
  }

  others-consistent :
      (k : ℕ) (o : Order)
      → (db.next_order_id == k) ≡ false
      → find order_key k db.orders ≡ some o
      → OrderIsConsistent (inserted db fresh_order v) o
  others-consistent k o ne e =
      let old = c.each k o e in
      record {
        audited = ground (
          arith,
          latest-cons o.id (baseline fresh_order) db.status_events,
          find-key order_key k o db.orders e,
          old.audited,
        );
        refunds = old.refunds;
        settles = old.settles;
        amount = old.amount;
        closed = old.closed;
      }

  inserted-find :
      (k : ℕ)
      → find order_key k (inserted db fresh_order v).orders
        ≡ (if db.next_order_id == k then some fresh_order else find order_key k db.orders)
  inserted-find k = find-save order_key k fresh_order db.orders

  inserted-each :
      (k : ℕ) (o : Order)
      → find order_key k (inserted db fresh_order v).orders ≡ some o
      → OrderIsConsistent (inserted db fresh_order v) o
  inserted-each k o e = elim (Bool-cases (db.next_order_id == k)) [
    | inl it ↦
        let q : fresh_order ≡ o = ground (arith, inserted-find k) in
        subst (OrderIsConsistent (inserted db fresh_order v)) q fresh-consistent
    | inr ne ↦ others-consistent k o ne (ground (arith, inserted-find k))
  ]

  inserted-IsUnused : (k : ℕ) → db.next_order_id + 1 ≤ k → IsUnused (inserted db fresh_order v) k
  inserted-IsUnused k h =
      let u = c.unused k (omega arith) in
      record {
        no_order = ground (arith, inserted-find k, u.no_order);
        no_event =
            ground (arith, latest-cons k (baseline fresh_order) db.status_events, u.no_event);
        no_refund = u.no_refund;
        no_settle = u.no_settle;
      }

  inserted-IsConsistent : IsConsistent (inserted db fresh_order v)
  inserted-IsConsistent = record {
    each = inserted-each;
    keyed = save-IsKeyed order_key fresh_order db.orders c.keyed;
    trail = (sym free.no_event, refl, c.trail);
    unused = inserted-IsUnused;
  }

  -- The row that waits for payment, and the row of a COD order.
  abbrev waiting : Order
  waiting = record fresh_order { status = payment_pending }

  abbrev confirmed : Order
  confirmed = record waiting { status = payment_success; payment_status = success }

  waiting-effect : Extra → OrdersDb
  waiting-effect x =
      effect (inserted db fresh_order v) waiting
        (transition fresh_order payment_pending Actor.system none now)
        (messages x waiting (inserted db fresh_order v))

  waiting-IsBooked :
      (x : Extra) → is_refund x ≡ false → is_settle x ≡ false → IsBooked fresh_order waiting x
  unfolding allowed
  waiting-IsBooked x r t = ground (arith, r, t)

  confirmed-IsBooked : (r : Option RestaurantSnapshot) → IsBooked waiting confirmed (paid_extra r)
  unfolding allowed paid_extra
  confirmed-IsBooked r = ground arith

  waiting-IsConsistent :
      (x : Extra) → IsBooked fresh_order waiting x → IsConsistent (waiting-effect x)
  unfolding waiting-effect
  waiting-IsConsistent x b =
      Move-IsConsistent
        (effect-Move (inserted db fresh_order v) fresh_order waiting Actor.system none now x
          (ground (arith, inserted-find db.next_order_id)) b)
        inserted-IsConsistent

  owner_extra : Extra
  owner_extra = paid_extra (find restaurant_key v.restaurant_id db.restaurants)

  confirmed-effect : OrdersDb
  unfolding waiting-effect
  confirmed-effect =
      effect (waiting-effect silent) confirmed
        (transition waiting payment_success Actor.system (some cod_to_be_collected) now)
        (messages owner_extra confirmed (waiting-effect silent))

  waiting-found : find order_key db.next_order_id (waiting-effect silent).orders ≡ some waiting
  unfolding waiting-effect
  waiting-found =
      ground
        (arith, find-save order_key db.next_order_id waiting (save order_key fresh_order db.orders))

  confirmed-IsConsistent : IsConsistent confirmed-effect
  unfolding confirmed-effect owner_extra
  confirmed-IsConsistent =
      Move-IsConsistent
        (effect-Move (waiting-effect silent) waiting confirmed Actor.system
          (some cod_to_be_collected) now owner_extra waiting-found
          (confirmed-IsBooked (find restaurant_key v.restaurant_id db.restaurants)))
        (waiting-IsConsistent silent (waiting-IsBooked silent refl refl))

  -- A card order waits for its payment.
  place-card :
      request.payment_method ≡ card
      → (place user request v (opened db now sent)).1.durable ≡ waiting-effect quiet
  unfolding place waiting-effect allowed
  place-card e = ground (arith, save-save order_key fresh_order waiting db.orders)

  -- A COD order is confirmed, and its restaurant hears of it.
  place-cod :
      request.payment_method ≡ cod
      → (place user request v (opened db now sent)).1.durable ≡ confirmed-effect
  unfolding place confirmed-effect owner_extra paid_extra allowed
  place-cod e = ground (
    arith,
    save-save order_key (record waiting { status = payment_success }) confirmed
        (save order_key waiting (save order_key fresh_order db.orders)),
  )

  -- A placed order keeps the database consistent.
  pub place-IsConsistent : IsConsistent (place user request v (opened db now sent)).1.durable
  place-IsConsistent = elim (PaymentMethod-cases request.payment_method) [
    | inl e ↦ subst IsConsistent (sym (place-cod e)) confirmed-IsConsistent
    | inr e ↦
        subst IsConsistent (sym (place-card e))
          (waiting-IsConsistent quiet (waiting-IsBooked quiet refl refl))
  ]
