-- ===== src/Restaurants/Hours.antt =====
-- services/restaurants/app/hours.py, from the local day and minute on. `rows` are the opening hours of one
-- restaurant.
pub mod Clause
use food_delivery_system.Base.{
  ℕ, zero, suc, ◌+◌, ◌%◌, Bool, true, false, not, Option, none, some, List, [], ◌∷◌, any, leb, ltb,
  ◌==◌, if◌then◌else◌, ◌&&◌, ◌||◌,
}
use food_delivery_system.Restaurants.Models.{OpeningHour}

pub record ScheduleStatus : Type 0 where
  pub accepting_orders : Bool
  pub local_day_of_week : ℕ
  pub current_closes_at : Option ℕ
  pub open_24_hours : Bool
  pub next_opens_at : Option ℕ
  pub next_opens_day : Option ℕ

-- `{row.day_of_week: row for row in rows}.get(day)`: a later row of one day wins.
unfoldable pub by_day : ℕ → List OpeningHour → Option OpeningHour
by_day day [] = none
by_day day (r ∷ rs) = elim (by_day day rs) [
  | some later ↦ some later
  | none ↦ if r.day_of_week == day then some r else none
]

-- A day's window, none where the kitchen stays closed.
abbrev pub window : OpeningHour → Option (ℕ × ℕ)
window r = if r.is_closed then none else elim r.opens_at [
  | none ↦ none
  | some opens ↦ elim r.closes_at [ none ↦ none | some closes ↦ some (opens, closes) ]
]

abbrev pub window_on : Option OpeningHour → Option (ℕ × ℕ)
window_on none = none
window_on (some r) = window r

abbrev pub before : ℕ → ℕ → Bool
before a b = ltb a b

-- `(day - 1) % 7`
abbrev pub previous : ℕ → ℕ
previous day = (day + 6) % 7

-- Today's window, of three shapes: the same time twice is the whole day, and one that ends before it opens
-- runs over midnight.
abbrev pub covers_today : ℕ → ℕ × ℕ → Bool
covers_today now (opens, closes) =
    (opens == closes)
    || ((before opens closes && leb opens now && before now closes)
        || (before closes opens && leb opens now))

-- What is left of yesterday's window after midnight.
abbrev pub covers_after_midnight : ℕ → ℕ × ℕ → Bool
covers_after_midnight now (opens, closes) = before closes opens && before now closes

abbrev pub holds : (ℕ × ℕ → Bool) → Option (ℕ × ℕ) → Bool
holds p none = false
holds p (some w) = p w

abbrev pub opens_of : Option OpeningHour → Option ℕ
opens_of none = none
opens_of (some r) = if r.is_closed then none else r.opens_at

-- The loop of `_next_open`, `n` days from `ahead` on.
unfoldable pub next_from : List OpeningHour → ℕ → ℕ → ℕ → ℕ → Option (ℕ × ℕ)
next_from rows day now ahead zero = none
next_from rows day now ahead (suc n) =
    let rest = next_from rows day now (suc ahead) n in
    let candidate = (day + ahead) % 7 in
    elim (opens_of (by_day candidate rows)) [
      | none ↦ rest
      | some opens ↦ if ahead == 0 && leb opens now then rest else some (candidate, opens)
    ]

abbrev pub next_open : List OpeningHour → ℕ → ℕ → Option (ℕ × ℕ)
next_open rows day now = next_from rows day now 0 7

abbrev pub day_of : Option (ℕ × ℕ) → Option ℕ
day_of none = none
day_of (some (day, time)) = some day

abbrev pub time_of : Option (ℕ × ℕ) → Option ℕ
time_of none = none
time_of (some (day, time)) = some time

abbrev pub not_accepting : List OpeningHour → ℕ → ℕ → ScheduleStatus
not_accepting rows day now = record {
  accepting_orders = false;
  local_day_of_week = day;
  current_closes_at = none;
  open_24_hours = false;
  next_opens_at = time_of (next_open rows day now);
  next_opens_day = day_of (next_open rows day now);
}

abbrev pub accepting : ℕ → Option ℕ → Bool → ScheduleStatus
accepting day closes whole_day = record {
  accepting_orders = true;
  local_day_of_week = day;
  current_closes_at = closes;
  open_24_hours = whole_day;
  next_opens_at = none;
  next_opens_day = none;
}

abbrev pub is_whole_day : ℕ × ℕ → Bool
is_whole_day (opens, closes) = opens == closes

abbrev pub closes_of : Option (ℕ × ℕ) → Option ℕ
closes_of none = none
closes_of (some (opens, closes)) = some closes

-- `schedule_status` of an open restaurant with a schedule.
abbrev pub scheduled : List OpeningHour → ℕ → ℕ → ScheduleStatus
scheduled rows day now =
    let today = window_on (by_day day rows) in
    let yesterday = window_on (by_day (previous day) rows) in
    if holds is_whole_day today
    then accepting day none true
    else if holds (covers_today now) today
    then accepting day (closes_of today) false
    else if holds (covers_after_midnight now) yesterday
    then accepting day (closes_of yesterday) false
    else not_accepting rows day now

unfoldable pub schedule_status : Bool → List OpeningHour → ℕ → ℕ → ScheduleStatus
schedule_status false rows day now = not_accepting rows day now
schedule_status true [] day now = accepting day none false
schedule_status true (r ∷ rs) day now = scheduled (r ∷ rs) day now

-- A row that `exists(…)` of the clause finds: of the day, with a window that passes the test.
abbrev pub row_matches : ℕ → (ℕ × ℕ → Bool) → OpeningHour → Bool
row_matches day p r = r.day_of_week == day && holds p (window r)

abbrev pub is_none_listed : List OpeningHour → Bool
is_none_listed [] = true
is_none_listed (_ ∷ _) = false

unfoldable pub within_schedule_clause : List OpeningHour → ℕ → ℕ → Bool
within_schedule_clause rows day now =
    is_none_listed rows
    || (any (row_matches day (covers_today now)) rows
        || any (row_matches (previous day) (covers_after_midnight now)) rows)
