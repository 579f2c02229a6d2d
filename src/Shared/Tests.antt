-- ===== src/Shared/Tests.antt =====
-- The theorems of the shared parts at small inputs.
use food_delivery_system.Base.{
  ◌+◌, ◌==◌, if◌then◌else◌, ℕ, ◌≡◌, refl, Bool, true, false, none, some, List, [], ◌∷◌, select,
  count_if, map, not, ltb, arith,
}
use food_delivery_system.Shared.OutboxEvent.{Topic, OutboxEvent, outbox_event}
use food_delivery_system.Shared.Relay.{
  is_unpublished, drain, take, skip, join, tried_again, is_sent_at, content, drain-published,
}
use food_delivery_system.Shared.CircuitBreaker.{
  Reply, no_reply, status, after, is_open, request, record_failure, record_success,
}
use food_delivery_system.Shared.RateLimit.{passed, enforce_rate_limit, enforce_rate_limit-admits}

abbrev row : ℕ → OutboxEvent ℕ
row n = outbox_event Topic.order_events none n

abbrev backlog : List (OutboxEvent ℕ)
backlog = record (row 1) { published_at = some 9 } ∷ row 2 ∷ row 3 ∷ row 4 ∷ []

-- The broker refuses the payload 2.
abbrev broker : OutboxEvent ℕ → Bool
broker e = ltb 2 e.payload

drain-published_example :
    (select is_unpublished (drain broker 10 2 backlog).0
      ≡ join
          (map tried_again (select (λ e. not (broker e)) (take 2 (select is_unpublished backlog))))
          (skip 2 (select is_unpublished backlog)))
    × ((drain broker 10 2 backlog).1 ≡ count_if broker (take 2 (select is_unpublished backlog)))
    × (map content (drain broker 10 2 backlog).0 ≡ map content backlog)
    × ((t : ℕ)
        → count_if (is_sent_at t) (drain broker 10 2 backlog).0
          ≡ count_if (is_sent_at t) backlog
            + (if 10 == t then (drain broker 10 2 backlog).1 else 0))
drain-published_example = drain-published broker 10 2 backlog

drain-backlog : (drain broker 10 2 backlog).1 ≡ 1
unfolding drain
drain-backlog = refl

abbrev calls : List (ℕ × Reply)
calls = (7, no_reply) ∷ (6, status 503) ∷ (5, status 404) ∷ (4, status 500) ∷ []

-- Two failures in a row open the breaker of threshold 2, until the cooldown ends.
calls-open : (is_open (after 2 10 calls) 8 ≡ true) × (is_open (after 2 10 calls) 17 ≡ false)
unfolding after request record_failure record_success
calls-open = (refl, refl)

-- Two of the three attempts made within a minute pass.
enforce_rate_limit-admits_example : passed 2 60 (100 ∷ 110 ∷ 159 ∷ []) none ≡ 2
enforce_rate_limit-admits_example =
    enforce_rate_limit-admits 2 60 100 (110 ∷ 159 ∷ []) (omega arith)
      (omega arith, (omega arith, tt))

-- The attempt after the window passes again.
window-closed : passed 2 60 (100 ∷ 110 ∷ 159 ∷ 160 ∷ []) none ≡ 3
unfolding passed enforce_rate_limit
window-closed = refl
