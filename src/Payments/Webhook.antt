-- ===== src/Payments/Webhook.antt =====
-- services/payments/app/webhook.py, below the signature check: an event that was verified. A text that
-- is empty counts as absent there, so an id that may be empty is an Option here. Redis keeps the id of
-- an event that was seen until a time; `none` is no Redis at all.
use text.Mathlib.Text.{◌==◌ as str_eq}
use food_delivery_system.Base.{
  Bool, true, false, Option, none, some, List, [], ◌∷◌, String, Result, ok, Session, pure, gets,
  commit, ◌>>=◌, ◌>>◌, ◌==◌, if◌then◌else◌, ◌||◌, ◌&&◌, ℕ, ◌+◌, ltb,
}
use food_delivery_system.Payments.Models.{
  succeeded, failed, IdempotencyKey, first, retry, resume, Reference, pi, stripe, Payment,
  PaymentsDb, Call, Error, Act,
}
use food_delivery_system.Payments.Service.{put_payment, announce_success}

pub data EventType : Type 0 where
  payment_intent_succeeded payment_intent_failed : EventType
  checkout_completed checkout_async_succeeded checkout_async_failed : EventType
  other_type : String → EventType

pub data SessionPayment : Type 0 where
  paid no_payment_required unpaid : SessionPayment

-- The object of an event, with the fields that the handler reads.
pub record Event : Type 0 where
  pub id : Option String
  pub type : EventType
  pub object_id : Option Reference
  pub payment_intent : Option Reference
  pub payment_status : Option SessionPayment

pub data Outcome : Type 0 where
  duplicate ignored unknown failed_outcome awaiting_payment paid_outcome : Outcome

abbrev same_key : IdempotencyKey → IdempotencyKey → Bool
same_key (first a) (first b) = a == b
same_key (retry a) (retry b) = a == b
same_key (resume a) (resume b) = a == b
same_key _ _ = false

-- `Payment.provider_ref == ref`, which is IS NULL where there is no id
abbrev pub same_reference : Option Reference → Option Reference → Bool
same_reference none none = true
same_reference (some (pi a)) (some (pi b)) = same_key a b
same_reference (some (stripe a)) (some (stripe b)) = str_eq a b
same_reference _ _ = false

unfoldable pub find_by_reference : Option Reference → List Payment → Option Payment
find_by_reference ref [] = none
find_by_reference ref (p ∷ ps) =
    if same_reference p.provider_ref ref then some p else find_by_reference ref ps

-- `event_type in _SETTLES + _FAILS`
abbrev pub is_handled : EventType → Bool
is_handled (other_type _) = false
is_handled _ = true

abbrev pub is_failure : EventType → Bool
is_failure EventType.payment_intent_failed = true
is_failure EventType.checkout_async_failed = true
is_failure _ = false

abbrev pub is_checkout : EventType → Bool
is_checkout EventType.checkout_completed = true
is_checkout EventType.checkout_async_succeeded = true
is_checkout _ = false

-- `if intent: payment.provider_ref = intent`
abbrev pub at_intent : Option Reference → Payment → Payment
at_intent none p = p
at_intent (some intent) p = record p { provider_ref = some intent }

-- `payment_status not in (None, "paid", "no_payment_required")`
abbrev pub is_unsettled : Option SessionPayment → Bool
is_unsettled (some unpaid) = true
is_unsettled _ = false

abbrev pub settle_by_event : Payment → Act Outcome
settle_by_event p = do
  put_payment (record p { status = succeeded })
  commit
  announce_success p
  commit
  pure paid_outcome

-- What is left to do on a completed checkout session.
abbrev pub complete_session : Event → Payment → Act Outcome
complete_session event p =
    if is_unsettled event.payment_status
    then (do put_payment (at_intent event.payment_intent p); commit; pure awaiting_payment)
    else settle_by_event (at_intent event.payment_intent p)

abbrev pub fail_by_event : Payment → Act Outcome
fail_by_event p = do put_payment (record p { status = failed }); commit; pure failed_outcome

abbrev pub apply_to_payment : Event → Option Payment → Act Outcome
apply_to_payment event none = pure unknown
apply_to_payment event (some p) =
    if is_failure event.type
    then fail_by_event p
    else if is_checkout event.type
    then complete_session event p
    else settle_by_event p

-- `handle_event` from the test on the type.
unfoldable pub apply_event : Event → Act Outcome
apply_event event =
    if is_handled event.type
    then (do
      found ← gets (λ db. find_by_reference event.object_id db.payments)
      apply_to_payment event found)
    else pure ignored

-- `_SEEN_TTL`, a week
abbrev pub seen_ttl : ℕ
seen_ttl = 604800

-- The key of an event in Redis, which is gone from its time on.
pub record Seen : Type 0 where
  pub id : String
  pub expires_at : ℕ

unfoldable pub is_seen : ℕ → String → List Seen → Bool
is_seen now id [] = false
is_seen now id (x ∷ xs) = (str_eq x.id id && ltb now x.expires_at) || is_seen now id xs

-- `event_id and redis is not None and not redis.set(key, nx=True)`
abbrev pub is_duplicate : ℕ → Option String → Option (List Seen) → Bool
is_duplicate now (some id) (some seen) = is_seen now id seen
is_duplicate now _ _ = false

-- `ex=_SEEN_TTL`
abbrev pub mark_seen : ℕ → Option String → Option (List Seen) → Option (List Seen)
mark_seen now (some id) (some seen) = some (record { id = id; expires_at = now + seen_ttl } ∷ seen)
mark_seen now _ seen = seen

-- The session and Redis, and what they become.
unfoldable pub handle_event :
    Event
    → Session PaymentsDb Call × Option (List Seen)
    → Result Error Outcome × (Session PaymentsDb Call × Option (List Seen))
handle_event event (s, seen) =
    let (r, s') = apply_event event s in
    if is_duplicate s.now event.id seen
    then (ok duplicate, (s, seen))
    else (r, (s', mark_seen s.now event.id seen))
