-- ===== src/Orders/Tests/Handlers.antt =====
-- The theorems on single handlers at the sample database.
use food_delivery_system.Base.{◌≡◌, refl, none, some, [], ◌∷◌, find, begin}
use food_delivery_system.Orders.Models.{rejected, cancelled, Actor, refund}
use food_delivery_system.Orders.Store.{order_key}
use food_delivery_system.Orders.Lifecycle.{cancel_as_read, advance_status, mark_paid}
use food_delivery_system.Orders.Invariant.{requested}
use food_delivery_system.Orders.Moves.{Change}
use food_delivery_system.Orders.Gaps.{cancel-race, advance_status-rejects}
use food_delivery_system.Orders.Refinement.Effects.{effect, messages, transition}
use food_delivery_system.Orders.Refinement.Customer.{
  customer_cancelled, customer_extra, cancel_as_read-effect,
}
use food_delivery_system.Orders.Refinement.Payment.{mark_paid-Change}
use food_delivery_system.Orders.Sample.{sample-paid, sample-house, owner, paid_order, house, sample}

mark_paid-Change_at_sample : Change sample (mark_paid 2 (begin sample 300)).1.durable
mark_paid-Change_at_sample = mark_paid-Change 2 sample 300

cancel_as_read-effect_at_sample :
    (cancel_as_read paid_order (begin sample 300)).1.durable
    ≡ effect sample
        (customer_cancelled paid_order 300)
        (transition paid_order cancelled Actor.customer none 300)
        (messages (customer_extra paid_order) (customer_cancelled paid_order 300) sample)
cancel_as_read-effect_at_sample = cancel_as_read-effect paid_order (begin sample 300) refl

cancel-race_example :
    let first = (cancel_as_read paid_order (begin sample 300)).1.durable in
    requested 1 refund (cancel_as_read paid_order (begin first 301)).1.durable.outbox
    ≡ 450 ∷ 450 ∷ requested 1 refund sample.outbox
cancel-race_example = cancel-race paid_order sample 300 301 refl refl

advance_status-rejects_example :
    let s = (advance_status owner 1 rejected (begin sample 300)).1 in
    (find order_key 1 s.durable.orders
      ≡ some (record paid_order { status = rejected; updated_at = 300 }))
    × (requested 1 refund s.durable.outbox ≡ requested 1 refund sample.outbox)
    × (s.sent ≡ [])
advance_status-rejects_example =
    advance_status-rejects owner sample 300 paid_order house sample-paid sample-house refl refl
