-- ===== src/Payments/Laws.antt =====
-- What the handlers of the payments service do, for a redelivered message among others.
use text.Mathlib.TextPositions.{eq_refl}
use food_delivery_system.Base.{
  ℕ, ◌≡◌, refl, ap, ◌∙◌, true, false, Option, none, some, List, [], ◌∷◌, ◌<◌, ◌+◌, String, ok, err,
  Session, begin, find, find-save, arith, Bool-cases, Option-cases, inl, inr,
}
use food_delivery_system.Payments.Models.{
  Payment, OrderSnapshot, PaymentsDb, Call, payment_key, snapshot_key, no_snapshot, IdempotencyKey,
}
use food_delivery_system.Payments.Providers.{PaymentProvider}
use food_delivery_system.Payments.Service.{
  create_payment_for_order, confirm_card_payment, first_payment,
}
use food_delivery_system.Payments.Consumer.{PaymentCommand, apply_payment_command}
use food_delivery_system.Payments.Webhook.{
  Event, Seen, seen_ttl, duplicate, handle_event, is_seen, is_duplicate,
}

module _ (o : OrderSnapshot) (provider : PaymentProvider) where
  -- The payment of an order, once created: the row that was there, or else the one that another
  -- consumer committed meanwhile, or else the provider's answer.
  unfoldable pub payment_of : Option Payment → Option Payment → Payment
  payment_of (some existing) _ = existing
  payment_of none (some winner) = winner
  payment_of none none =
      first_payment o provider
        (provider.authorize o.total (IdempotencyKey.first o.order_id) o.order_id)

  -- After a creation the payment stored for the order is the row that was there, else the row that
  -- another consumer committed meanwhile, else the provider's answer; a row that another consumer
  -- committed is one of this order.
  pub create_payment_for_order-stores :
      (rival : Option Payment) (db : PaymentsDb) (now : ℕ)
      → payment_key (payment_of (find payment_key o.order_id db.payments) rival) ≡ o.order_id
      → let s = (create_payment_for_order o provider rival (begin db now)).1 in
        find payment_key o.order_id s.durable.payments
        ≡ some (payment_of (find payment_key o.order_id db.payments) rival)
  unfolding create_payment_for_order payment_of
  create_payment_for_order-stores rival db now own =
      elim (Option-cases (find payment_key o.order_id db.payments)) [
        | inr (p, e) ↦ ground arith
        | inl e ↦ elim (Option-cases rival) [
          | inl alone ↦ ground (
            arith,
            find-save payment_key o.order_id
                (first_payment o provider
                  (provider.authorize o.total (IdempotencyKey.first o.order_id) o.order_id))
                db.payments,
          )
          | inr (w, raced) ↦ ground (arith, find-save payment_key o.order_id w db.payments)
        ]
      ]

  -- A creation for an order that has a payment answers it, asks no provider and writes nothing.
  pub create_payment_for_order-again :
      (rival : Option Payment) (s : Session PaymentsDb Call) (p : Payment)
      → find payment_key o.order_id s.current.payments ≡ some p
      → create_payment_for_order o provider rival s ≡ (ok (p, none), s)
  unfolding create_payment_for_order
  create_payment_for_order-again rival s p e = ground arith

  -- A card payment is not taken as paid on the customer's word: where the provider does not confirm it,
  -- confirmation answers the payment as it is, writes nothing and announces nothing.
  pub confirm_card_payment-unverified :
      (s : Session PaymentsDb Call) (p : Payment)
      → find payment_key o.order_id s.current.payments ≡ some p
      → (provider.verify p.provider_ref).ok ≡ false
      → let (r, s') = confirm_card_payment o provider s in
        (r ≡ ok (some (p, none))) × (s'.current ≡ s.current) × (s'.durable ≡ s.durable)
  unfolding confirm_card_payment
  confirm_card_payment-unverified s p e h = ground arith

module _ (stripe : Option PaymentProvider) where
  -- A command that arrives before the event that describes its order fails, so that it is delivered
  -- again, and neither writes nor moves money.
  pub apply_payment_command-early :
      (c : PaymentCommand) (id : ℕ) (s : Session PaymentsDb Call)
      → c.order_id ≡ some id
      → find snapshot_key id s.current.snapshots ≡ none
      → apply_payment_command stripe c s ≡ (err (no_snapshot id), s)
  unfolding apply_payment_command
  apply_payment_command-early c id s named early = ground arith

-- Events that reach the webhook one after the other, each at a time.
unfoldable pub handle_all :
    List (ℕ × Event) → PaymentsDb × Option (List Seen) → PaymentsDb × Option (List Seen)
handle_all [] x = x
handle_all ((now, event) ∷ events) (db, seen) =
    let (s, seen') = (handle_event event (begin db now, seen)).1 in
    handle_all events (s.durable, seen')

-- An id that is seen at a time stays so, whatever event is handled.
handle_event-seen :
    (event : Event) (s : Session PaymentsDb Call) (seen : Option (List Seen)) (id : String)
    (now : ℕ)
    → is_duplicate now (some id) seen ≡ true
    → is_duplicate now (some id) (handle_event event (s, seen)).1.1 ≡ true
unfolding handle_event is_seen
handle_event-seen event s none id now h = cc
handle_event-seen event s (some keys) id now h = elim (Option-cases event.id) [
  | inl unnamed ↦ ground (arith, unnamed, h)
  | inr (other, named) ↦ elim (Bool-cases (is_seen s.now other keys)) [
    | inl old ↦ ground (arith, named, old, h)
    | inr new ↦ ground (arith, named, new, h)
  ]
]

handle_all-seen :
    (events : List (ℕ × Event)) (db : PaymentsDb) (seen : Option (List Seen)) (id : String)
    (now : ℕ)
    → is_duplicate now (some id) seen ≡ true
    → is_duplicate now (some id) (handle_all events (db, seen)).1 ≡ true
unfolding handle_all
handle_all-seen [] db seen id now h = h
handle_all-seen ((at, event) ∷ events) db seen id now h =
    let (s, seen') = (handle_event event (begin db at, seen)).1 in
    handle_all-seen events s.durable seen' id now
      (handle_event-seen event (begin db at) seen id now h)

handle_event-duplicate :
    (event : Event) (s : Session PaymentsDb Call) (seen : Option (List Seen)) (id : String)
    → event.id ≡ some id
    → is_duplicate s.now (some id) seen ≡ true
    → handle_event event (s, seen) ≡ (ok duplicate, (s, seen))
unfolding handle_event
handle_event-duplicate event s seen id named h =
    let dup : is_duplicate s.now event.id seen ≡ true =
      ap (λ o. is_duplicate s.now o seen) named ∙ h in
    rw dup refl

-- With Redis, an event that is handled for the first time and comes again within a week, after whatever
-- other events, is answered as a duplicate, changes nothing and moves nothing.
pub handle_event-again :
    (event : Event) (id : String) (later : List (ℕ × Event)) (db : PaymentsDb) (seen : List Seen)
    (at now : ℕ)
    → event.id ≡ some id
    → is_seen at id seen ≡ false
    → now < at + seen_ttl
    → let (db', seen') = handle_all ((at, event) ∷ later) (db, some seen) in
      handle_event event (begin db' now, seen') ≡ (ok duplicate, (begin db' now, seen'))
unfolding handle_event is_seen handle_all
handle_event-again event id later db seen at now named new soon =
    let (s, keys) = (handle_event event (begin db at, some seen)).1 in
    let (db', seen') = handle_all later (s.durable, keys) in
    let marked : is_duplicate now (some id) keys ≡ true =
      ground (arith, named, new, soon, eq_refl id) in
    handle_event-duplicate event (begin db' now) seen' id named
      (handle_all-seen later s.durable keys id now marked)
