-- ===== src/Payments/Tests.antt =====
-- The theorems of the payments service at a sample database: a card order 1 that was paid, and a card
-- order 2 whose payment was refunded.
use food_delivery_system.Base.{
  Option, Bool, String, true, ℕ, ◌≤◌, ◌≡◌, ◌+◌, arith, refl, false, none, some, List, [], ◌∷◌, ok,
  begin, find, save,
}
use food_delivery_system.Payments.Models.{
  card, succeeded, refunded, first, stripe, Payment, payment_pending, OrderSnapshot, PaymentsDb,
  Call,
}
use food_delivery_system.Payments.Providers.{PaymentProvider, card_provider, error}
use food_delivery_system.Payments.Service.{refund_payment, capture_payment}
use food_delivery_system.Payments.Consumer.{settle, refund, apply_payment_command}
use food_delivery_system.Payments.Webhook.{
  Event, payment_intent_succeeded, payment_intent_failed, apply_event, handle_event,
  find_by_reference, duplicate, Seen, seen_ttl, is_seen, paid_outcome,
}
use food_delivery_system.Payments.Deliveries.{Delivery, command, deliver, deliver_all}
use food_delivery_system.Payments.Deliveries.Refunds.{
  refunds_to, refund_budget, refund-once, deliver_all-budget,
}
use food_delivery_system.Payments.Laws.{handle_event-again, handle_all}
use food_delivery_system.Payments.Signature.{ℤ, pos, parse_parts, verify_signature, is_recent}
use food_delivery_system.Payments.Signature.{verify_parsed, match_any}
use food_delivery_system.Payments.Signature.Laws.{is_listed, verify_signature_sound}
use food_delivery_system.Payments.Gaps.{apply_event-revives}

abbrev paid : Payment
paid = record {
  order_id = 1;
  provider = card;
  amount = 450;
  status = succeeded;
  provider_ref = some (stripe "pi_a");
  idempotency_key = some (first 1);
}

abbrev returned : Payment
returned = record paid {
  order_id = 2;
  status = refunded;
  provider_ref = some (stripe "pi_b");
  idempotency_key = some (first 2);
}

abbrev order : ℕ → OrderSnapshot
order id = record {
  order_id = id;
  customer_id = 5;
  status = payment_pending;
  total = 450;
  payment_method = card;
}

abbrev sample : PaymentsDb
sample = record {
  payments = paid ∷ returned ∷ [];
  snapshots = order 1 ∷ order 2 ∷ order 3 ∷ [];
  outbox = [];
}

-- A provider that cannot be reached.
abbrev down : PaymentProvider
down = record card_provider {
  verify = λ ref. record { ok = false; reference = ref; status = error; checkout_url = none };
  refund =
      λ ref amount. record { ok = false; reference = none; status = error; checkout_url = none };
}

abbrev give_back : ℕ → Delivery
give_back id = command (record { order_id = some id; action = refund })

abbrev deliveries : List Delivery
deliveries =
    give_back 1
    ∷ give_back 2
    ∷ give_back 1
    ∷ command (record { order_id = some 1; action = settle })
    ∷ give_back 1
    ∷ []

-- Three refund commands for order 1 make one call, and one for the refunded order 2 makes none.
deliveries-sent :
    (deliver_all none deliveries sample []).1 ≡ Call.refund card 1 (some (stripe "pi_a")) 450 ∷ []
unfolding deliver_all deliver apply_payment_command capture_payment refund_payment find save
deliveries-sent = refl

refund-once_example : refunds_to 1 (deliver_all none deliveries sample []).1 ≤ 1
unfolding find
refund-once_example = refund-once none deliveries sample 1

deliver_all-budget_at_sample :
    refund_budget 2
      (deliver_all none deliveries sample []).0
      (deliver_all none deliveries sample []).1
    ≤ refund_budget 2 sample []
deliver_all-budget_at_sample = deliver_all-budget none deliveries sample [] 2

abbrev success : Event
success = record {
  id = some "evt_1";
  type = payment_intent_succeeded;
  object_id = some (stripe "pi_b");
  payment_intent = none;
  payment_status = none;
}

abbrev failure : Event
failure = record success { id = some "evt_2"; type = payment_intent_failed }

abbrev key_of : ℕ → Seen
key_of at = record { id = "evt_1"; expires_at = at + seen_ttl }

-- A week later the first event is handled again.
again-after_a_week :
    (handle_event success (begin sample 604800, some (key_of 0 ∷ []))).0 ≡ ok paid_outcome
unfolding handle_event is_seen apply_event find_by_reference find save
again-after_a_week = refl

handle_event-again_example :
    let (db, seen) = handle_all ((0, success) ∷ (5, failure) ∷ []) (sample, some []) in
    handle_event success (begin db 604799, seen) ≡ (ok duplicate, (begin db 604799, seen))
unfolding is_seen
handle_event-again_example =
    handle_event-again success "evt_1" ((5, failure) ∷ []) sample [] 0 604799 refl refl
      (omega arith)

apply_event-revives_example :
    let revived = (apply_event success (begin sample 0)).1.durable in
    (refund_payment (order 2) card_provider (begin revived 1)).1.sent
    ≡ Call.refund card 2 (some (stripe "pi_b")) 450 ∷ []
unfolding find_by_reference
apply_event-revives_example =
    apply_event-revives success (order 2) card_provider returned sample 0 1 refl refl refl refl

-- A header "t=5,v0=x,v1=old,v1=new", split.
abbrev parts_of : String → List (String × String)
parts_of header = ("t", "5") ∷ ("v0", "x") ∷ ("v1", "old") ∷ ("v1", "new") ∷ []

abbrev five : String → Option ℤ
five t = some (pos 5)

abbrev new_digest : String → ℤ → String → String
new_digest secret t payload = "new"

abbrev every_text : String → Bool
every_text t = true

header-accepted :
    verify_signature parts_of five new_digest every_text "body"
      (some "header")
      (some "secret")
      100
      300
    ≡ ok tt
unfolding verify_signature verify_parsed parse_parts match_any
header-accepted = refl

verify_signature_sound_example :
    (t : ℤ) × ((parse_parts five (parts_of "header") (none, [])).0 ≡ some t)
    × (is_recent 100 300 t ≡ true)
    × (is_listed (new_digest "secret" t "body") (parse_parts five (parts_of "header") (none, [])).1
        ≡ true)
verify_signature_sound_example =
    verify_signature_sound parts_of five new_digest every_text "body" "header" "secret" 100 300
      header-accepted
