-- ===== src/Orders/Checkout/Laws.antt =====
-- What a checkout does on each of its outcomes.
use mathlib.Core.Path.{subst}
use text.Mathlib.Text.{◌==◌ as str_eq}
use food_delivery_system.Base.{
  sym, ℕ, ◌≡◌, true, false, some, List, inl, inr, ◌⊎◌, String, ok, err, Result-cases, Session,
  begin, opened, if◌then◌else◌, arith, Option-cases,
}
use food_delivery_system.Shared.Identity.{Identity}
use food_delivery_system.Orders.Models.{OrdersDb}
use food_delivery_system.Orders.Store.{AppException, empty_cart, price_mismatch_refresh, Call}
use food_delivery_system.Orders.Cart.{Redis, CartView, get_cart, is_empty}
use food_delivery_system.Orders.Invariant.{IsConsistent}
use food_delivery_system.Orders.Checkout.{
  Answer, CheckoutRequest, ValidatedOrder, validate_checkout, place, acquire_lock, checkout_body,
  create_order_from_checkout,
}
use food_delivery_system.Orders.Checkout.Placed.{place-IsConsistent}

-- Validation writes nothing to the database.
validate_checkout-reads :
    (answer : Answer) (cart : CartView) (customer : ℕ) (request : CheckoutRequest) (db : OrdersDb)
    (now : ℕ)
    → (validate_checkout answer cart customer request (begin db now)).1
      ≡ opened db now (validate_checkout answer cart customer request (begin db now)).1.sent
unfolding validate_checkout
validate_checkout-reads answer cart customer request db now = ground arith

-- A cart with no lines, or one whose prices are no longer those that the customer saw, is refused
-- before the restaurants service is asked: no stock is held for it.
pub validate_checkout-stale :
    (answer : Answer) (cart : CartView) (customer rid : ℕ) (request : CheckoutRequest)
    (s : Session OrdersDb Call)
    → cart.restaurant_id ≡ some rid
    → (is_empty cart.items ≡ true) ⊎ (str_eq request.price_hash cart.price_hash ≡ false)
    → validate_checkout answer cart customer request s
      ≡ (err (if is_empty cart.items then empty_cart else price_mismatch_refresh), s)
unfolding validate_checkout
validate_checkout-stale answer cart customer rid request s housed (inl e) = ground arith
validate_checkout-stale answer cart customer rid request s housed (inr e) = ground arith

module _ (sha256 : List (ℕ × ℕ) → String) (answer : Answer) (user : Identity)
    (request : CheckoutRequest) where
  -- The session of a checkout that a refusal ends: nothing was written.
  body-refused :
      (s : Session OrdersDb Call) (r : Redis) (e : AppException)
      → (validate_checkout answer (get_cart sha256 user.user_id r) user.user_id request s).0 ≡ err e
      → checkout_body sha256 answer user request (s, r) ≡ (
        err e,
        ((validate_checkout answer (get_cart sha256 user.user_id r) user.user_id request s).1, r),
      )
  unfolding checkout_body
  body-refused s r e h = ground arith

  body-placed :
      (s : Session OrdersDb Call) (r : Redis) (v : ValidatedOrder)
      → (validate_checkout answer (get_cart sha256 user.user_id r) user.user_id request s).0 ≡ ok v
      → (checkout_body sha256 answer user request (s, r)).1.0.durable
        ≡ (place user request v
            (validate_checkout answer
              (get_cart sha256 user.user_id r)
              user.user_id
              request
              s).1).1.durable
  unfolding checkout_body
  body-placed s r v h = ground arith

  body-keeps :
      (db : OrdersDb) (now : ℕ) (r : Redis)
      → IsConsistent db
      → IsConsistent (checkout_body sha256 answer user request (begin db now, r)).1.0.durable
  body-keeps db now r c =
      let cart = get_cart sha256 user.user_id r in
      let v = validate_checkout answer cart user.user_id request (begin db now) in
      let reads = validate_checkout-reads answer cart user.user_id request db now in
      elim (Result-cases v.0) [
        | inr (e, h) ↦ rw (body-refused (begin db now) r e h) (rw reads c)
        | inl (w, h) ↦ rw (body-placed (begin db now) r w h) (
            subst (λ s. IsConsistent (place user request w s).1.durable) (sym reads)
              (place-IsConsistent db user request w now v.1.sent c))
      ]

  -- A checkout, however it ends, keeps the orders database consistent.
  pub checkout-IsConsistent :
      (db : OrdersDb) (now : ℕ) (r : Redis)
      → IsConsistent db
      → IsConsistent
          (create_order_from_checkout sha256 answer user request (begin db now, r)).1.0.durable
  unfolding create_order_from_checkout
  checkout-IsConsistent db now r c = elim (Option-cases (acquire_lock now user.user_id r)) [
    | inl busy ↦ rw busy c
    | inr (held, got) ↦ rw got (body-keeps db now held c)
  ]
