-- ===== src/Admin/Stats.antt =====
-- The numbers of the panel agree with each other.
use text.Mathlib.Text.{◌==◌ as str_eq}
use food_delivery_system.Base.{
  ℕ, ◌+◌, ◌≡◌, refl, not, List, [], ◌∷◌, String, select, length, arith, if◌then◌else◌,
}
use food_delivery_system.Admin.Models.{OrderRow, AdminDb}
use food_delivery_system.Admin.Service.{Group, tally, by_status, is_excluded, sum_totals, get_stats}

abbrev pub sum_counts : List Group → ℕ
sum_counts [] = 0
sum_counts (g ∷ gs) = g.count + sum_counts gs

-- How many the first group with a status counts.
unfoldable pub count_of : String → List Group → ℕ
count_of status [] = 0
count_of status (g ∷ gs) = if str_eq g.status status then g.count else count_of status gs

sum_counts-tally :
    (status : String) (gs : List Group) → sum_counts (tally status gs) ≡ sum_counts gs + 1
sum_counts-tally status [] = refl
sum_counts-tally status (g ∷ gs) = ground (arith, sum_counts-tally status gs)

sum_counts-by_status : (os : List OrderRow) → sum_counts (by_status os) ≡ length os
unfolding by_status
sum_counts-by_status [] = refl
sum_counts-by_status (o ∷ os) =
    ground (arith, sum_counts-tally o.status (by_status os), sum_counts-by_status os)

excluded-value :
    (os : List OrderRow)
    → sum_totals (select (λ o. not (is_excluded o)) os) + sum_totals (select is_excluded os)
      ≡ sum_totals os
excluded-value [] = refl
excluded-value (o ∷ os) = ground (arith, excluded-value os)

-- The counts by status add up to the number of orders, and the merchandise value with the totals of the cancelled and
-- rejected orders to the totals of all.
pub get_stats-adds_up :
    (db : AdminDb)
    → (sum_counts (get_stats db).orders_by_status ≡ (get_stats db).orders_total)
      × ((get_stats db).gross_merchandise_value + sum_totals (select is_excluded db.orders)
          ≡ sum_totals db.orders)
unfolding get_stats
get_stats-adds_up db = (sum_counts-by_status db.orders, excluded-value db.orders)
