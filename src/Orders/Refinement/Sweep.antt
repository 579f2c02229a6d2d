-- ===== src/Orders/Refinement/Sweep.antt =====
-- A loop that cancels stale orders, in general: each round is one step of the lifecycle, and a row
-- that is not in the loop's list stays as it is.
use food_delivery_system.Base.{
  ◌∙◌, ℕ, ◌≡◌, refl, Bool, true, false, Option, none, some, List, [], ◌∷◌, find, find-save, IsKeyed,
  find-IsKeyed, All, All-map, All-zip, for_each, Session, Result, ok, ◌==◌, if◌then◌else◌, arith,
}
use food_delivery_system.Orders.Models.{Actor, Reason, Order, OrdersDb}
use food_delivery_system.Orders.Store.{AppException, Call, release_stock, Act, order_key, lines_of}
use food_delivery_system.Orders.Invariant.{IsConsistent}
use food_delivery_system.Orders.Moves.{Move-IsConsistent}
use food_delivery_system.Orders.Refinement.Effects.{
  effect, transition, Extra, messages, IsBooked, effect-Move,
}

-- A loop body that cancels a ready order in one way.
pub record Sweep : Type 0 where
  pub body : Order → Act (Unit {0})
  pub is_ready : Order → Bool
  pub row : Order → ℕ → Order
  pub reason : Reason
  pub extra : Extra

-- The session after the body has handled an order that it finds.
unfoldable pub swept : Sweep → Order → Session OrdersDb Call → Session OrdersDb Call
swept w o s =
    let after = w.row o s.now in
    record s {
      current =
          effect s.current after (transition o after.status Actor.system (some w.reason) s.now)
            (messages w.extra after s.current);
      sent = release_stock o.restaurant_id (lines_of o.id s.current.order_items) ∷ s.sent;
    }

pub record IsSweep (w : Sweep) : Type 0 where
  pub runs :
      (o : Order) (s : Session OrdersDb Call)
      → w.is_ready o ≡ true
      → w.body o s ≡ (ok tt, swept w o s)
  pub booked : (o : Order) (now : ℕ) → w.is_ready o ≡ true → IsBooked o (w.row o now) w.extra

-- What the loop makes of a row.
unfoldable pub after_sweep : Sweep → ℕ → Option Order → Option Order → Option Order
after_sweep w now none stored = stored
after_sweep w now (some o) stored = some (w.row o now)

module _ (w : Sweep) (i : IsSweep w) where
  swept-find :
      (o : Order) (s : Session OrdersDb Call) (k : ℕ)
      → w.is_ready o ≡ true
      → find order_key k (swept w o s).current.orders
        ≡ (if o.id == k then some (w.row o s.now) else find order_key k s.current.orders)
  unfolding swept
  swept-find o s k r = rw find-save (rw ((i.booked o s.now r).same_id) refl)

  abbrev pub IsStale : Session OrdersDb Call → Order → Type 0
  IsStale s o = (find order_key o.id s.current.orders ≡ some o) × (w.is_ready o ≡ true)

  stays-IsStale :
      (x : Order) (xs : List Order) (s : Session OrdersDb Call)
      → find order_key x.id xs ≡ none
      → w.is_ready x ≡ true
      → IsKeyed order_key xs
      → All (IsStale s) xs
      → All (IsStale (swept w x s)) xs
  stays-IsStale x xs s gone r keyed h =
      All-map (λ o p. (stays o p.0 p.1.0, p.1.1)) xs
        (All-zip _ _ xs (find-IsKeyed order_key xs keyed) h)
    where
      differs : (o : Order) → find order_key o.id xs ≡ some o → (x.id == o.id) ≡ false
      differs o e = ground (arith, gone)

      stays :
          (o : Order)
          → find order_key o.id xs ≡ some o
          → find order_key o.id s.current.orders ≡ some o
          → find order_key o.id (swept w x s).current.orders ≡ some o
      stays o e f = swept-find x s o.id r ∙ rw (differs o e) f

  -- What holds of the session that the loop ends in.
  pub record IsSwept (l : List Order) (s : Session OrdersDb Call)
      (r : Result AppException (Unit {0}) × Session OrdersDb Call) : Type 0 where
    pub ends : r.0 ≡ ok tt
    pub consistent : IsConsistent r.1.current
    pub rows :
        (k : ℕ)
        → find order_key k r.1.current.orders
          ≡ after_sweep w s.now (find order_key k l) (find order_key k s.current.orders)

  -- One round of the loop.
  for_each-cons :
      (x : Order) (xs : List Order) (s : Session OrdersDb Call)
      → w.is_ready x ≡ true
      → for_each w.body (x ∷ xs) s ≡ for_each w.body xs (swept w x s)
  unfolding for_each
  for_each-cons x xs s r = ground (arith, i.runs x s r)

  swept-IsConsistent :
      (x : Order) (s : Session OrdersDb Call)
      → IsStale s x
      → IsConsistent s.current
      → IsConsistent (swept w x s).current
  unfolding swept
  swept-IsConsistent x s (found, r) c =
      Move-IsConsistent
        (effect-Move s.current x (w.row x s.now) Actor.system (some w.reason) s.now w.extra found
          (i.booked x s.now r))
        c

  -- A row that the loop has handled is not handled again.
  rows-cons :
      (x : Order) (xs : List Order) (s : Session OrdersDb Call) (k : ℕ)
      → find order_key x.id xs ≡ none
      → w.is_ready x ≡ true
      → after_sweep w s.now (find order_key k xs) (find order_key k (swept w x s).current.orders)
        ≡ after_sweep w s.now (find order_key k (x ∷ xs)) (find order_key k s.current.orders)
  unfolding after_sweep find
  rows-cons x xs s k gone r = ground (arith, swept-find x s k r)

  pub loop-IsSwept :
      (l : List Order) (s : Session OrdersDb Call)
      → IsKeyed order_key l
      → All (IsStale s) l
      → IsConsistent s.current
      → IsSwept l s (for_each w.body l s)
  unfolding for_each after_sweep find swept
  loop-IsSwept [] s keyed stale c = record { ends = refl; consistent = c; rows = λ k. refl }
  loop-IsSwept (x ∷ xs) s keyed stale c =
      let r = stale.0.1 in
      let rest =
        loop-IsSwept xs (swept w x s) keyed.1 (stays-IsStale x xs s keyed.0 r keyed.1 stale.1)
          (swept-IsConsistent x s stale.0 c) in
      rw (for_each-cons x xs s r) (record {
        ends = rest.ends;
        consistent = rest.consistent;
        rows = λ k. rest.rows k ∙ rows-cons x xs s k keyed.0 r;
      })
