-- ===== src/Restaurants/Ratings/Bounds.antt =====
-- The bounds of an average of stars.
use food_delivery_system.Base.{
  ℕ, zero, suc, ◌≡◌, refl, some, List, [], ◌∷◌, ◌+◌, ◌*◌, ◌≤◌, length, All, select-All, ◌==◌, arith,
}
use food_delivery_system.Restaurants.Models.{Review}
use food_delivery_system.Restaurants.Ratings.{
  Breakdown, count_of, total_of, summary_of, summarise, counts_of, reviews_of, summary_for_one,
}

-- A rating as the forms let it through.
abbrev pub IsStars : Review → Type 0
IsStars r = (1 ≤ r.rating) × (r.rating ≤ 5)

breakdown_of : List Review → Breakdown
breakdown_of rows = record {
  five = counts_of rows 5;
  four = counts_of rows 4;
  three = counts_of rows 3;
  two = counts_of rows 2;
  one = counts_of rows 1;
}

counts_of-length :
    (rows : List Review)
    → All IsStars rows
    → counts_of rows 5
        + (counts_of rows 4 + (counts_of rows 3 + (counts_of rows 2 + counts_of rows 1)))
      ≡ length rows
unfolding counts_of
counts_of-length [] h = refl
counts_of-length (r ∷ rs) h = ground (arith, counts_of-length rs h.1, h.0)

summary_of-count : (b : Breakdown) (n : ℕ) → (summary_of n b).count ≡ n
summary_of-count b zero = refl
summary_of-count b (suc n) = refl

summary_of-average :
    (b : Breakdown) (n total count : ℕ)
    → n ≡ count_of b
    → (summary_of n b).average ≡ some (total, count)
    → (1 ≤ count) × (count ≤ total) × (total ≤ 5 * count)
summary_of-average b zero total count e a = cc
summary_of-average b (suc n) total count e a =
    let same_total : total ≡ total_of b = ground arith in
    let same_count : count ≡ suc n = ground arith in (omega arith, omega arith, omega arith)

pub summary_for_one-bounds :
    (rows : List Review) (id : ℕ)
    → All IsStars rows
    → (((summary_for_one rows id).count ≡ length (reviews_of id rows)))
      × ((total count : ℕ)
          → (summary_for_one rows id).average ≡ some (total, count)
          → (1 ≤ count) × (count ≤ total) × (total ≤ 5 * count))
unfolding summary_for_one summarise counts_of breakdown_of
summary_for_one-bounds rows id h = (
  ground (
    arith,
    summary_of-count (breakdown_of (reviews_of id rows))
        (count_of (breakdown_of (reviews_of id rows))),
    counts_of-length (reviews_of id rows) (select-All IsStars (λ r. r.restaurant_id == id) rows h),
  ),
  λ total count a. summary_of-average (breakdown_of (reviews_of id rows)) _ total count refl a,
)
