-- ===== src/Samples/Zones.antt =====
-- A zone an hour ahead of UTC, as that of Lagos, in a calendar without leap years.
use expentra.Prelude.{
  ℕ, suc, ◌+◌, ◌-◌, ◌*◌, ◌/◌, ◌%◌, ◌≤◌, ◌<◌, some, ◌==◌, if◌then◌else◌, ltb, leb, ◌&&◌, ◌≡◌, refl,
  inr, arith,
}
use expentra.Budget.Period.{Zone, CalendarDate, WallClock, resolve_budget_year}
use expentra.Budget.Period.Midnight.{FixedOffset}

abbrev pub days : ℕ → ℕ
days y = (y - 1970) * 365

abbrev one_or_two : ℕ → ℕ
one_or_two k = if k % 365 == 0 then 1 else 2

abbrev date_of_day : ℕ → CalendarDate
date_of_day k = record { year = 1970 + k / 365; month = one_or_two k; day = one_or_two k }

abbrev clock_of : ℕ → ℕ → WallClock
clock_of k s = record {
  year = 1970 + k / 365;
  month = one_or_two k;
  day = one_or_two k;
  hour = s / 3600;
  minute = s % 3600 / 60;
  second = s % 60;
}

abbrev pub hour_ahead : Zone
hour_ahead = record {
  formatted = λ t. some (date_of_day ((t + 3600000) / 86400000));
  utc = λ t. date_of_day (t / 86400000);
  wall_clock = λ t. clock_of ((t + 3600000) / 86400000) ((t + 3600000) / 1000 % 86400);
  date_utc = λ y m d h. days y * 86400000 + h * 3600000;
}

local_day :
    (t k s : ℕ) → t + 3600000 ≡ k * 86400000 + 1000 * s → s < 86400 → (t + 3600000) / 86400000 ≡ k
local_day t k s e lt = omega arith

local_second :
    (t k s : ℕ)
    → t + 3600000 ≡ k * 86400000 + 1000 * s
    → s < 86400
    → (t + 3600000) / 1000 % 86400 ≡ s
local_second t k s e lt = omega arith

clock_seconds : (s : ℕ) → s / 3600 * 3600 + s % 3600 / 60 * 60 + s % 60 ≡ s
clock_seconds s = omega arith

first_day :
    (k y : ℕ)
    → 0 < days y
    → (1970 + k / 365 == y && one_or_two k == 1 && one_or_two k == 1) ≡ (k == days y)
first_day k y later = ground arith

year_of_day :
    (l y : ℕ)
    → (1970 + l / 86400000 / 365 == y)
      ≡ (leb (days y * 86400000) l && ltb l (days (suc y) * 86400000))
year_of_day l y = ground arith

pub hour_ahead-FixedOffset : FixedOffset hour_ahead days 3600 0
unfolding resolve_budget_year
hour_ahead-FixedOffset = record {
  date_utc = λ y h. refl;
  one_side = inr refl;
  east_most = omega arith;
  west_most = omega arith;
  clock_time =
      λ t k s e lt. omega (arith, local_second t k s (omega (arith, e)) lt, clock_seconds s);
  clock_date = λ t k s y e lt later.
      ground (arith, local_day t k s (omega (arith, e)) lt, first_day k y later);
  year_of = λ t y. ground (arith, year_of_day (t + 3600000) y);
}

pub days_later : (y : ℕ) → 2000 ≤ y → 0 < days y
days_later y h = omega arith
