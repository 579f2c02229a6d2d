-- ===== src/Restaurants/Discovery.antt =====
-- services/restaurants/app/discovery.py, the price bands. An average price is the sum of the prices, in
-- paise, and their count, so that it is compared without a division.
pub mod Bands
use food_delivery_system.Base.{
  ℕ, Bool, true, Option, none, some, List, [], ◌∷◌, ◌-◌, ◌*◌, zero, suc, length, leb, ltb,
  if◌then◌else◌, ◌&&◌,
}

pub record AveragePrice : Type 0 where
  pub total : ℕ
  pub count : ℕ

-- `PRICE_BAND_BOUNDS`, ten and twenty-five.
abbrev pub price_band_bounds : List (ℕ × ℕ)
price_band_bounds = (1, 1000) ∷ (2, 2500) ∷ []

abbrev pub max_price_band : ℕ
max_price_band = 3

-- `[upper for _, upper in PRICE_BAND_BOUNDS]`
abbrev pub uppers : List (ℕ × ℕ) → List ℕ
uppers [] = []
uppers ((band, upper) ∷ rest) = upper ∷ uppers rest

-- `xs[i]`; the indices below are in range.
abbrev pub item_at : List ℕ → ℕ → ℕ
item_at [] i = 0
item_at (x ∷ xs) zero = x
item_at (x ∷ xs) (suc i) = item_at xs i

unfoldable pub band_range : ℕ → ℕ × Option ℕ
band_range band =
    let bounds = uppers price_band_bounds in
    if leb band 1
    then (0, some (item_at bounds 0))
    else if leb band (length bounds)
    then (item_at bounds (band - 2), some (item_at bounds (band - 1)))
    else (item_at bounds (length bounds - 1), none)

abbrev pub is_at_least : AveragePrice → ℕ → Bool
is_at_least p bound = leb (bound * p.count) p.total

abbrev pub is_below : AveragePrice → ℕ → Bool
is_below p bound = ltb p.total (bound * p.count)

abbrev pub is_below_some : AveragePrice → Option ℕ → Bool
is_below_some p none = true
is_below_some p (some upper) = is_below p upper

-- `_price_band_clause`
unfoldable pub price_band_clause : AveragePrice → ℕ → Bool
price_band_clause p band =
    let (lower, upper) = band_range band in is_at_least p lower && is_below_some p upper

-- The loop of `band_for_price`.
unfoldable pub band_from : List (ℕ × ℕ) → AveragePrice → ℕ
band_from [] p = max_price_band
band_from ((band, upper) ∷ rest) p = if is_below p upper then band else band_from rest p

unfoldable pub band_for_price : Option AveragePrice → Option ℕ
band_for_price none = none
band_for_price (some p) = some (band_from price_band_bounds p)
