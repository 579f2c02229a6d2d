-- ===== src/Shared/CircuitBreaker.antt =====
-- shared/http_client.py: `CircuitBreaker`, and what `ServiceClient.request` tells it. Times are whole
-- seconds of the monotonic clock.
use food_delivery_system.Base.{
  ℕ, suc, ◌+◌, ◌≤◌, ◌≡◌, refl, Bool, true, false, Option, none, some, List, [], ◌∷◌, ltb, leb,
  if◌then◌else◌, arith, All,
}

pub record CircuitBreaker : Type 0 where
  pub threshold : ℕ
  pub cooldown_seconds : ℕ
  pub failures : ℕ
  pub opened_at : Option ℕ

-- `time.monotonic() - opened_at < cooldown_seconds`, for an opening in the past
abbrev pub is_open : CircuitBreaker → ℕ → Bool
is_open b now = elim b.opened_at [ none ↦ false | some t ↦ ltb now (t + b.cooldown_seconds) ]

unfoldable pub record_success : CircuitBreaker → CircuitBreaker
record_success b = record b { failures = 0; opened_at = none }

unfoldable pub record_failure : ℕ → CircuitBreaker → CircuitBreaker
record_failure now b = record b {
  failures = suc b.failures;
  opened_at = if leb b.threshold (suc b.failures) then some now else b.opened_at;
}

-- What a call comes to: no answer in time, or a status.
pub data Reply : Type 0 where
  no_reply : Reply
  status : ℕ → Reply

abbrev pub is_failure : Reply → Bool
is_failure no_reply = true
is_failure (status code) = leb 500 code

-- The breaker after `request`, which calls nothing while it is open.
unfoldable pub request : ℕ → Reply → CircuitBreaker → CircuitBreaker
request now reply b =
    if is_open b now then b else if is_failure reply then record_failure now b else record_success b

abbrev pub new_breaker : ℕ → ℕ → CircuitBreaker
new_breaker threshold cooldown = record {
  threshold = threshold;
  cooldown_seconds = cooldown;
  failures = 0;
  opened_at = none;
}

-- The calls that a client made, newest first, each at its time.
unfoldable pub after : ℕ → ℕ → List (ℕ × Reply) → CircuitBreaker
after threshold cooldown [] = new_breaker threshold cooldown
after threshold cooldown ((now, reply) ∷ calls) = request now reply (after threshold cooldown calls)

-- The breaker remembers an opening exactly while it counts as many failures in a row as its threshold.
abbrev pub is_tripped : CircuitBreaker → Bool
is_tripped b = elim b.opened_at [ none ↦ false | some _ ↦ true ]

module _ (threshold cooldown : ℕ) (positive : 1 ≤ threshold) where
  after-settings :
      (calls : List (ℕ × Reply))
      → ((after threshold cooldown calls).threshold ≡ threshold)
        × ((after threshold cooldown calls).cooldown_seconds ≡ cooldown)
  unfolding after request record_success record_failure
  after-settings [] = (refl, refl)
  after-settings ((now, reply) ∷ calls) =
      let before = after-settings calls in (ground (arith, before.0), ground (arith, before.1))

  -- After any sequence of calls through a new client the breaker has opened exactly if the failures
  -- that it counts, timeouts and answers from 500 upwards in a row, have reached the threshold: until
  -- then every call is made, and answers below 500 never open it.
  pub after-tripped :
      (calls : List (ℕ × Reply))
      → is_tripped (after threshold cooldown calls)
        ≡ leb threshold (after threshold cooldown calls).failures
  unfolding after request record_success record_failure
  after-tripped [] = ground arith
  after-tripped ((now, reply) ∷ calls) =
      ground (arith, after-tripped calls, (after-settings calls).0)

-- Answers below 500 leave the breaker of a client as it was new, however many refusals are among them:
-- a client's mistakes do not cut off a service that works.
pub after-healthy :
    (threshold cooldown : ℕ) (calls : List (ℕ × Reply))
    → All (λ c. is_failure c.1 ≡ false) calls
    → after threshold cooldown calls ≡ new_breaker threshold cooldown
unfolding after request record_success
after-healthy threshold cooldown [] h = refl
after-healthy threshold cooldown ((now, reply) ∷ calls) h =
    ground (arith, h.0, after-healthy threshold cooldown calls h.1)
