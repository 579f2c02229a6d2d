-- ===== src/Orders/Checkout/Locks.antt =====
-- The lock of a user's checkout, which expires and is deleted without a look at who holds it.
use food_delivery_system.Base.{
  ℕ, ◌+◌, ◌≤◌, ◌<◌, ◌≡◌, refl, ap, sym, ◌∙◌, false, none, some, List, [], ◌∷◌, arith, Bool-cases,
  inl, inr,
}
use food_delivery_system.Orders.Cart.{Lock, Redis}
use food_delivery_system.Orders.Checkout.{lock_ttl, is_locked, acquire_lock, unlock, release_lock}

is_locked-unlock : (now u : ℕ) (ls : List Lock) → is_locked now u (unlock u ls) ≡ false
unfolding is_locked unlock
is_locked-unlock now u [] = refl
is_locked-unlock now u (l ∷ ls) = ground (arith, is_locked-unlock now u ls)

-- A user who holds no lock gets none by waiting.
is_locked-later :
    (t v u : ℕ) (ls : List Lock) → t ≤ v → is_locked t u ls ≡ false → is_locked v u ls ≡ false
unfolding is_locked
is_locked-later t v u [] le h = refl
is_locked-later t v u (l ∷ ls) le h = ground (arith, is_locked-later t v u ls le)

-- A checkout of a user who holds no lock gets it.
acquire_lock-free :
    (now u : ℕ) (r : Redis)
    → is_locked now u r.locks ≡ false
    → acquire_lock now u r
      ≡ some (record r { locks = record { user_id = u; expires_at = now + lock_ttl } ∷ r.locks })
unfolding acquire_lock
acquire_lock-free now u r free = rw free refl

-- A checkout that still runs when its lock has expired lets a second one of its user begin, whose lock holds
-- a third off; and where the first then ends and deletes the key, the third begins while the second runs.
pub release_lock-steals :
    (u t later last : ℕ) (r r' : Redis)
    → acquire_lock t u r ≡ some r'
    → t + lock_ttl ≤ later
    → last < later + lock_ttl
    → (second : Redis) × (acquire_lock later u r' ≡ some second)
      × (acquire_lock last u second ≡ none)
      × ((third : Redis) × (acquire_lock last u (release_lock u second) ≡ some third))
unfolding acquire_lock is_locked
release_lock-steals u t later last r r' got over soon = elim (Bool-cases (is_locked t u r.locks)) [
  | inl busy ↦ ground (arith, busy, got)
  | inr free ↦
      let first : Lock = record { user_id = u; expires_at = t + lock_ttl } in
      let same : record r { locks = first ∷ r.locks } ≡ r' = ground (arith, free, got) in
      let expired : is_locked later u (first ∷ r.locks) ≡ false =
        ground (arith, over, is_locked-later t later u r.locks (omega arith) free) in
      let idle : is_locked later u r'.locks ≡ false =
        ap (λ x. is_locked later u x.locks) (sym same) ∙ expired in
      let second = record r' {
        locks = record { user_id = u; expires_at = later + lock_ttl } ∷ r'.locks;
      } in
      let left = release_lock u second in
      (
        second,
        acquire_lock-free later u r' idle,
        ground (arith, soon),
        (
          record left { locks = record { user_id = u; expires_at = last + lock_ttl } ∷ left.locks },
          acquire_lock-free last u left (is_locked-unlock last u second.locks),
        ),
      )
]
