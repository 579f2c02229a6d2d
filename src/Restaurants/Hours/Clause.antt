-- ===== src/Restaurants/Hours/Clause.antt =====
-- The schedule that checkout evaluates and the clause that browsing filters by are one.
use food_delivery_system.Base.{
  ℕ, ◌≡◌, refl, Bool, true, List, [], ◌∷◌, any, find, IsKeyed, ◌==◌, ◌||◌, arith, Bool-cases,
  Option-cases, inl, inr,
}
use food_delivery_system.Restaurants.Models.{OpeningHour, hour_key}
use food_delivery_system.Restaurants.Hours.{
  by_day, window_on, covers_today, covers_after_midnight, holds, previous, schedule_status,
  scheduled, row_matches, within_schedule_clause, is_whole_day,
}

by_day-find :
    (day : ℕ) (rows : List OpeningHour)
    → IsKeyed hour_key rows
    → by_day day rows ≡ find hour_key day rows
unfolding by_day find
by_day-find day [] k = refl
by_day-find day (r ∷ rs) k = ground (arith, by_day-find day rs k.1, k.0)

any-find :
    (day : ℕ) (p : ℕ × ℕ → Bool) (rows : List OpeningHour)
    → IsKeyed hour_key rows
    → any (row_matches day p) rows ≡ holds p (window_on (find hour_key day rows))
unfolding any find
any-find day p [] k = refl
any-find day p (r ∷ rs) k = elim (Bool-cases (r.day_of_week == day)) [
  | inl own ↦ ground (arith, own, any-find day p rs k.1, k.0)
  | inr other ↦ ground (arith, other, any-find day p rs k.1)
]

scheduled-accepts :
    (rows : List OpeningHour) (day now : ℕ)
    → (scheduled rows day now).accepting_orders ≡ (
        holds (covers_today now) (window_on (by_day day rows))
        || holds (covers_after_midnight now) (window_on (by_day (previous day) rows)))
scheduled-accepts rows day now = elim (Option-cases (window_on (by_day day rows))) [
  | inl closed ↦
      elim (Bool-cases
        (holds (covers_after_midnight now) (window_on (by_day (previous day) rows)))) [
          | inl late ↦ ground (arith, closed, late)
          | inr early ↦ ground (arith, closed, early)
        ]
  | inr (w, listed) ↦ elim (Bool-cases (is_whole_day w)) [
    | inl whole ↦ ground (arith, listed, whole)
    | inr part ↦ elim (Bool-cases (covers_today now w)) [
      | inl on ↦ ground (arith, listed, part, on)
      | inr off ↦
          elim (Bool-cases
            (holds (covers_after_midnight now) (window_on (by_day (previous day) rows)))) [
              | inl late ↦ ground (arith, listed, part, off, late)
              | inr early ↦ ground (arith, listed, part, off, early)
            ]
    ]
  ]
]

-- For an open restaurant, whose schedule has each day once at most, checkout accepts orders exactly when
-- the clause that browsing filters by lets it through.
pub schedule_status-clause :
    (rows : List OpeningHour) (day now : ℕ)
    → IsKeyed hour_key rows
    → (schedule_status true rows day now).accepting_orders ≡ within_schedule_clause rows day now
unfolding schedule_status within_schedule_clause
schedule_status-clause [] day now k = refl
schedule_status-clause (r ∷ rs) day now k = ground (
  arith,
  scheduled-accepts (r ∷ rs) day now,
  by_day-find day (r ∷ rs) k,
  by_day-find (previous day) (r ∷ rs) k,
  any-find day (covers_today now) (r ∷ rs) k,
  any-find (previous day) (covers_after_midnight now) (r ∷ rs) k,
)
