-- ===== src/Restaurants/Ratings.antt =====
-- services/restaurants/app/ratings.py. The average is kept as its two whole numbers, the sum of the stars
-- and the count, before the division and the rounding of floats.
pub mod Bounds
use food_delivery_system.Base.{
  ℕ, zero, suc, Option, none, some, List, [], ◌∷◌, ◌+◌, ◌*◌, select, count_if, ◌==◌,
}
use food_delivery_system.Restaurants.Models.{Review}

-- One number for each star.
pub record Breakdown : Type 0 where
  pub five : ℕ
  pub four : ℕ
  pub three : ℕ
  pub two : ℕ
  pub one : ℕ

pub record RatingSummary : Type 0 where
  pub average : Option (ℕ × ℕ)
  pub count : ℕ
  pub breakdown : Breakdown

abbrev pub empty_breakdown : Breakdown
empty_breakdown = record { five = 0; four = 0; three = 0; two = 0; one = 0 }

-- `EMPTY`
abbrev pub empty : RatingSummary
empty = record { average = none; count = 0; breakdown = empty_breakdown }

-- `sum(breakdown.values())`
abbrev pub count_of : Breakdown → ℕ
count_of b = b.five + (b.four + (b.three + (b.two + b.one)))

-- `sum(star * n for star, n in breakdown.items())`
abbrev pub total_of : Breakdown → ℕ
total_of b = 5 * b.five + (4 * b.four + (3 * b.three + (2 * b.two + b.one)))

abbrev pub summary_of : ℕ → Breakdown → RatingSummary
summary_of zero b = empty
summary_of (suc n) b = record { average = some (total_of b, suc n); count = suc n; breakdown = b }

-- `_summarise`, of a count for each rating.
unfoldable pub summarise : (ℕ → ℕ) → RatingSummary
summarise counts =
    let b : Breakdown = record {
      five = counts 5;
      four = counts 4;
      three = counts 3;
      two = counts 2;
      one = counts 1;
    } in
    summary_of (count_of b) b

-- The grouped query: how many reviews of a restaurant have a rating.
unfoldable pub counts_of : List Review → ℕ → ℕ
counts_of rows rating = count_if (λ r. r.rating == rating) rows

abbrev pub reviews_of : ℕ → List Review → List Review
reviews_of restaurant_id = select (λ r. r.restaurant_id == restaurant_id)

unfoldable pub summary_for_one : List Review → ℕ → RatingSummary
summary_for_one rows restaurant_id = summarise (counts_of (reviews_of restaurant_id rows))
