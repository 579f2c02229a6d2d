-- ===== src/Restaurants/Discovery/Bands.antt =====
-- The band that a card shows, against the band that browsing filters by.
use food_delivery_system.Base.{ℕ, ◌≡◌, ◌≤◌, ◌↔◌, zero, suc, true, some, arith}
use food_delivery_system.Restaurants.Discovery.{
  AveragePrice, band_range, price_band_clause, band_from, band_for_price,
}

pub price_band_clause-band_for_price :
    (p : AveragePrice) (band : ℕ)
    → 1 ≤ band
    → band ≤ 3
    → (price_band_clause p band ≡ true) ↔ (band_for_price (some p) ≡ some band)
unfolding price_band_clause band_range band_for_price band_from
price_band_clause-band_for_price p zero low high = ground arith
price_band_clause-band_for_price p (suc zero) low high = (λ e. ground arith, λ e. ground arith)
price_band_clause-band_for_price p (suc (suc zero)) low high =
    (λ e. ground arith, λ e. ground arith)
price_band_clause-band_for_price p (suc (suc (suc zero))) low high =
    (λ e. ground arith, λ e. ground arith)
price_band_clause-band_for_price p (suc (suc (suc (suc band)))) low high = ground arith
