-- ===== src/Shared/RateLimit.antt =====
-- shared/ratelimit.py: a counter in Redis for each window. A key is absent, or holds a count that may expire; the two
-- commands of an attempt run one after the other.
use food_delivery_system.Base.{
  ℕ, suc, ◌+◌, ◌≡◌, ◌≤◌, ◌<◌, Bool, false, not, Option, none, some, List, [], ◌∷◌, length, ltb, leb,
  ◌==◌, if◌then◌else◌, All, arith,
}

pub record Counter : Type 0 where
  pub count : ℕ
  pub expires_at : Option ℕ

abbrev pub is_expired : ℕ → Option ℕ → Bool
is_expired now none = false
is_expired now (some at) = leb at now

abbrev bump : ℕ → Counter → Counter
bump now c =
    if is_expired now c.expires_at
    then record { count = 1; expires_at = none }
    else record c { count = c.count + 1 }

-- INCR
abbrev pub incr : ℕ → Option Counter → Counter
incr now none = record { count = 1; expires_at = none }
incr now (some c) = bump now c

-- EXPIRE, on the first attempt of a window
abbrev pub expire_first : ℕ → ℕ → Counter → Counter
expire_first now window c =
    if c.count == 1 then record c { expires_at = some (now + window) } else c

-- Whether an attempt passes, and the counter it leaves.
unfoldable pub enforce_rate_limit : ℕ → ℕ → ℕ → Option Counter → Bool × Counter
enforce_rate_limit limit window now key =
    let c = incr now key in (not (ltb limit c.count), expire_first now window c)

-- How many of the attempts at the given times pass.
unfoldable pub passed : ℕ → ℕ → List ℕ → Option Counter → ℕ
passed limit window [] key = 0
passed limit window (now ∷ later) key =
    let r = enforce_rate_limit limit window now key in
    let rest = passed limit window later (some r.1) in if r.0 then suc rest else rest

abbrev pub min : ℕ → ℕ → ℕ
min a b = if ltb a b then a else b

passed-open :
    (limit window end count : ℕ) (times : List ℕ)
    → 1 ≤ count
    → All (λ t. t < end) times
    → passed limit window times (some (record { count = count; expires_at = some end }))
        + min count limit
      ≡ min (length times + count) limit
unfolding enforce_rate_limit passed
passed-open limit window end count [] h inside = ground (arith)
passed-open limit window end count (t ∷ ts) h inside =
    ground (arith, inside.0, h, passed-open limit window end (suc count) ts (omega arith) inside.1)

-- With a positive limit and no window open, exactly the first `limit` of the attempts made within a window from the
-- first one pass.
pub enforce_rate_limit-admits :
    (limit window first : ℕ) (later : List ℕ)
    → 1 ≤ limit
    → All (λ t. t < first + window) later
    → passed limit window (first ∷ later) none ≡ min (length (first ∷ later)) limit
unfolding enforce_rate_limit passed
enforce_rate_limit-admits limit window first later some_pass inside =
    ground
      (arith, some_pass, passed-open limit window (first + window) 1 later (omega arith) inside)
