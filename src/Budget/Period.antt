-- ===== src/Budget/Period.antt =====
-- modules/budget/utils/budget-period.util.ts: the calendar date of an instant in the configured
-- time zone, and the instants that bound a year. `Intl.DateTimeFormat`, `Date.getUTC…` and
-- `Date.UTC` are the runtime's, so they are parameters.
pub mod Midnight
use expentra.Prelude.{
  ℕ, zero, suc, ◌+◌, ◌-◌, ◌*◌, Option, none, some, if◌then◌else◌, ◌==◌, not, Bool, ◌&&◌,
}
use expentra.Prelude.Int.{ℤ, sub_ℕ}

-- A year, a month (1 to 12) and a day.
pub record CalendarDate : Type 0 where
  pub year : ℕ
  pub month : ℕ
  pub day : ℕ

-- What the formatter of `zonedMidnightToUtc` reads off a clock of the zone.
pub record WallClock : Type 0 where
  pub year : ℕ
  pub month : ℕ
  pub day : ℕ
  pub hour : ℕ
  pub minute : ℕ
  pub second : ℕ

-- `formatted t` is what `formatToParts` gives in the zone of `BUDGET_TIMEZONE`, or `none` where it
-- throws or a part is no finite number; `utc t` is the date by the UTC getters; `wall_clock t` is
-- the date with the time of day in that zone; `date_utc y m d h` is `Date.UTC` at a full hour, the
-- month counted from 1.
pub record Zone : Type 0 where
  pub formatted : ℕ → Option CalendarDate
  pub utc : ℕ → CalendarDate
  pub wall_clock : ℕ → WallClock
  pub date_utc : ℕ → ℕ → ℕ → ℕ → ℕ

-- `calendarDateParts`
pub calendar_date_parts : Zone → ℕ → CalendarDate
calendar_date_parts z t = elim (z.formatted t) [ some p ↦ p | none ↦ z.utc t ]

-- `resolveBudgetYear`: the year of `budgetPeriodFromDate`
unfoldable pub resolve_budget_year : Zone → ℕ → ℕ
unfolding calendar_date_parts
resolve_budget_year z t = (calendar_date_parts z t).year

-- `compareCalendarDates`
pub compare_calendar_dates : Zone → ℕ → ℕ → ℤ
unfolding calendar_date_parts
compare_calendar_dates z left right =
    let a = calendar_date_parts z left in
    let b = calendar_date_parts z right in
    if not (a.year == b.year)
    then sub_ℕ a.year b.year
    else if not (a.month == b.month)
    then sub_ℕ a.month b.month
    else sub_ℕ a.day b.day

abbrev is_midnight_of : ℕ → ℕ → ℕ → WallClock → Bool
is_midnight_of y m d c =
    c.year == y && c.month == m && c.day == d && c.hour == 0 && c.minute == 0 && c.second == 0

-- `(h * 3_600 + min * 60 + sec) * 1_000 || 3_600_000`
abbrev step_back : WallClock → ℕ
step_back c =
    let elapsed = (c.hour * 3600 + c.minute * 60 + c.second) * 1000 in
    if elapsed == 0 then 3600000 else elapsed

-- The loop of `zonedMidnightToUtc`, with the attempts left.
find_midnight : Zone → ℕ → ℕ → ℕ → ℕ → ℕ → Option ℕ
find_midnight z y m d zero ms = none
find_midnight z y m d (suc n) ms =
    let clock = z.wall_clock ms in
    let later = find_midnight z y m d n (ms - step_back clock) in
    if is_midnight_of y m d clock then some ms else later

-- `zonedMidnightToUtc`
unfoldable pub zoned_midnight_to_utc : Zone → ℕ → ℕ → ℕ → ℕ
unfolding find_midnight
zoned_midnight_to_utc z y m d = elim (find_midnight z y m d 48 (z.date_utc y m d 12)) [
  | some ms ↦ ms
  | none ↦ z.date_utc y m d 0
]

-- A half-open range of instants.
pub record Range : Type 0 where
  pub start : ℕ
  pub stop : ℕ

-- `budgetYearRangeInTimeZone`
unfoldable pub budget_year_range_in_time_zone : Zone → ℕ → Range
budget_year_range_in_time_zone z year = record {
  start = zoned_midnight_to_utc z year 1 1;
  stop = zoned_midnight_to_utc z (suc year) 1 1;
}
