-- ===== src/Admin/Service.antt =====
-- services/admin/app/service.py: the numbers and the listings over the copies.
use text.Mathlib.Text.{◌==◌ as str_eq}
use food_delivery_system.Base.{
  ℕ, ◌+◌, Bool, not, List, [], ◌∷◌, String, select, length, if◌then◌else◌, ◌||◌,
}
use food_delivery_system.Admin.Models.{OrderRow, AdminDb}

pub record Group : Type 0 where
  pub status : String
  pub count : ℕ

-- `group_by(status)` with `count()`
abbrev pub tally : String → List Group → List Group
tally status [] = record { status = status; count = 1 } ∷ []
tally status (g ∷ gs) =
    if str_eq g.status status then record g { count = g.count + 1 } ∷ gs else g ∷ tally status gs

unfoldable pub by_status : List OrderRow → List Group
by_status [] = []
by_status (o ∷ os) = tally o.status (by_status os)

abbrev pub is_excluded : OrderRow → Bool
is_excluded o = str_eq o.status "CANCELLED" || str_eq o.status "REJECTED"

abbrev pub sum_totals : List OrderRow → ℕ
sum_totals [] = 0
sum_totals (o ∷ os) = o.total + sum_totals os

pub record Stats : Type 0 where
  pub users : ℕ
  pub restaurants : ℕ
  pub orders_total : ℕ
  pub orders_by_status : List Group
  pub gross_merchandise_value : ℕ

unfoldable pub get_stats : AdminDb → Stats
get_stats db = record {
  users = length db.users;
  restaurants = length db.restaurants;
  orders_total = length db.orders;
  orders_by_status = by_status db.orders;
  gross_merchandise_value = sum_totals (select (λ o. not (is_excluded o)) db.orders);
}
