-- ===== src/Budget/Administration/Years.antt =====
-- The ranges of the years of budgets in a zone of a fixed offset.
use expentra.Prelude.{ℕ, suc, ◌≤◌, ◌<◌, arith}
use expentra.Budget.Period.{Zone, budget_year_range_in_time_zone}
use expentra.Budget.Period.Midnight.{FixedOffset, zoned_midnight-first}
use expentra.Budget.Administration.Recalculation.{BoundsYears}

-- In a zone whose formatter writes midnight as hour 0 and whose clocks keep one offset between 12
-- hours behind UTC and 14 hours ahead of it, and whose first days of January from 2000 on come
-- after the epoch, the range of each year that a budget can have holds exactly the times of that
-- year in the zone.
pub FixedOffset-BoundsYears :
    (z : Zone) (days : ℕ → ℕ) (east west : ℕ)
    → FixedOffset z days east west
    → ((y : ℕ) → 2000 ≤ y → 0 < days y)
    → BoundsYears z
unfolding budget_year_range_in_time_zone
FixedOffset-BoundsYears z days east west fixed later y t valid =
    let first = zoned_midnight-first z days east west fixed y (later y (omega arith)) in
    let next = zoned_midnight-first z days east west fixed (suc y) (later (suc y) (omega arith)) in
    let year = fixed.year_of t y in
    let some_days = later y (omega arith) in
    let more_days = later (suc y) (omega arith) in
    rw (first, next, year) (ground (arith, fixed.east_most, some_days, more_days))
