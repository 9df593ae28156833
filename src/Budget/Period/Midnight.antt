-- ===== src/Budget/Period/Midnight.antt =====
-- The search of `zonedMidnightToUtc` for the first midnight of a year, in a zone whose clocks keep a
-- fixed offset, and where the formatter writes no hour 0.
use expentra.Prelude.{
  ℕ, zero, suc, ◌+◌, ◌-◌, ◌*◌, ◌≤◌, ◌<◌, false, none, some, ◌&&◌, ◌==◌, ltb, leb, ◌≡◌, ◌⊎◌, inl,
  inr, refl, arith, ap, ◌∙◌, Bool-cases,
}
use expentra.Budget.Period.{
  Zone, WallClock, resolve_budget_year, is_midnight_of, step_back, find_midnight,
  zoned_midnight_to_utc, budget_year_range_in_time_zone,
}

-- A zone `east` or `west` seconds off, where the first of January of year `y` is `days y` days after
-- the epoch; `k` is a day and `s` a second of it. Its formatter writes midnight as hour 0, which one
-- that writes it as 24 does not.
pub record FixedOffset (z : Zone) (days : ℕ → ℕ) (east west : ℕ) : Type 0 where
  pub date_utc : (y h : ℕ) → z.date_utc y 1 1 h ≡ days y * 86400000 + h * 3600000
  pub one_side : (east ≡ 0) ⊎ (west ≡ 0)
  pub east_most : east ≤ 50400
  pub west_most : west ≤ 43200
  pub clock_time :
      (t k s : ℕ)
      → t + 1000 * east ≡ k * 86400000 + 1000 * s + 1000 * west
      → s < 86400
      → (z.wall_clock t).hour * 3600 + (z.wall_clock t).minute * 60 + (z.wall_clock t).second ≡ s
  pub clock_date :
      (t k s y : ℕ)
      → t + 1000 * east ≡ k * 86400000 + 1000 * s + 1000 * west
      → s < 86400
      → 0 < days y
      → ((z.wall_clock t).year == y && (z.wall_clock t).month == 1 && (z.wall_clock t).day == 1)
        ≡ (k == days y)
  pub year_of :
      (t y : ℕ)
      → (resolve_budget_year z t == y) ≡ (
          leb (days y * 86400000 + 1000 * west) (t + 1000 * east)
          && ltb (t + 1000 * east) (days (suc y) * 86400000 + 1000 * west))

abbrev seconds : WallClock → ℕ
seconds c = c.hour * 3600 + c.minute * 60 + c.second

seconds-not-midnight : (y : ℕ) (c : WallClock) → 0 < seconds c → is_midnight_of y 1 1 c ≡ false
seconds-not-midnight y c h = ground arith

step_back-seconds : (c : WallClock) → 0 < seconds c → step_back c ≡ 1000 * seconds c
step_back-seconds c h = ground arith

step_back-hour : (c : WallClock) → seconds c ≡ 0 → step_back c ≡ 3600000
step_back-hour c h = ground arith

module _ (z : Zone) (days : ℕ → ℕ) (east west : ℕ) (fixed : FixedOffset z days east west) (y : ℕ)
    (later : 0 < days y) where
  -- At the midnight of the date the search ends.
  hit :
      (n t : ℕ)
      → t + 1000 * east ≡ days y * 86400000 + 1000 * west
      → find_midnight z y 1 1 (suc n) t ≡ some t
  unfolding find_midnight
  hit n t e = ground (
    arith,
    fixed.clock_time t (days y) 0,
    fixed.clock_date t (days y) 0 y (omega arith) (omega arith),
  )

  -- After the midnight of a day, the search goes back to it.
  back :
      (n t k s : ℕ)
      → t + 1000 * east ≡ k * 86400000 + 1000 * s + 1000 * west
      → s < 86400
      → 0 < s
      → find_midnight z y 1 1 (suc n) t ≡ find_midnight z y 1 1 n (t - 1000 * s)
  unfolding find_midnight
  back n t k s e lt pos =
      let c = z.wall_clock t in
      let at : seconds c ≡ s = fixed.clock_time t k s e lt in
      let started : 0 < seconds c = omega arith in
      let by : step_back c ≡ 1000 * s = omega (arith, step_back-seconds c started) in
      rw (seconds-not-midnight y c started, by) refl

  -- At the midnight of another day, the search goes back by an hour.
  hour_back :
      (n t k : ℕ)
      → t + 1000 * east ≡ k * 86400000 + 1000 * west
      → k ≡ suc (days y)
      → find_midnight z y 1 1 (suc n) t ≡ find_midnight z y 1 1 n (t - 3600000)
  unfolding find_midnight
  hour_back n t k e next =
      let c = z.wall_clock t in
      let at : seconds c ≡ 0 = fixed.clock_time t k 0 (omega arith) (omega arith) in
      let date = fixed.clock_date t k 0 y (omega arith) (omega arith) later in
      let other : is_midnight_of y 1 1 c ≡ false = ground (arith, date) in
      rw (other, step_back-hour c at) refl

  abbrev noon : ℕ
  noon = days y * 86400000 + 43200000

  abbrev pub midnight : ℕ
  midnight = days y * 86400000 + 1000 * west - 1000 * east

  finish :
      (n t : ℕ)
      → t + 1000 * east ≡ days y * 86400000 + 1000 * west
      → find_midnight z y 1 1 (suc n) t ≡ some midnight
  finish n t e = hit n t e ∙ ap (λ v. some v) (omega (arith, e))

  -- A clock of the date that shows `s` seconds.
  from_date :
      (n t s : ℕ)
      → t + 1000 * east ≡ days y * 86400000 + 1000 * s + 1000 * west
      → s < 86400
      → find_midnight z y 1 1 (suc (suc n)) t ≡ some midnight
  from_date n t s e lt = elim (Bool-cases (ltb 0 s)) [
    | inl after ↦
        let pos : 0 < s = ground arith in
        back (suc n) t (days y) s e lt pos ∙ finish n (t - 1000 * s) (omega arith)
    | inr at ↦ let zero_s : s ≡ 0 = ground arith in finish (suc n) t (omega arith)
  ]

  -- A clock of the next date that shows its midnight.
  from_next :
      (n t : ℕ)
      → t + 1000 * east ≡ suc (days y) * 86400000 + 1000 * west
      → find_midnight z y 1 1 (suc (suc (suc n))) t ≡ some midnight
  from_next n t e =
      hour_back (suc (suc n)) t (suc (days y)) e refl
      ∙ from_date n (t - 3600000) 82800 (omega (arith, fixed.east_most, fixed.west_most))
          (omega arith)

  -- From noon in UTC, at most four clocks are read.
  find_midnight-noon :
      (n : ℕ) → find_midnight z y 1 1 (suc (suc (suc (suc n)))) noon ≡ some midnight
  find_midnight-noon n = elim (Bool-cases (ltb east 43200)) [
    | inl near ↦
        from_date (suc (suc n)) noon (43200 + east - west)
          (ground (arith, fixed.west_most, fixed.one_side))
          (ground (arith, fixed.west_most, fixed.one_side))
    | inr far ↦
        let far_east : 43200 ≤ east = ground arith in
        let no_west : west ≡ 0 = ground (arith, fixed.one_side) in
        elim (Bool-cases (ltb 43200 east)) [
          | inl more ↦
              let s = east - 43200 in
              let beyond : 43200 < east = ground arith in
              back (suc (suc (suc n))) noon (suc (days y)) s (omega arith)
                (omega (arith, fixed.east_most)) (omega arith)
              ∙ from_next n (noon - 1000 * s) (omega (arith, fixed.east_most))
          | inr same ↦
              let exactly : east ≡ 43200 = ground arith in from_next (suc n) noon (omega arith)
        ]
  ]

  -- In a zone whose formatter writes midnight as hour 0 and whose clocks keep one offset between 12
  -- hours behind UTC and 14 hours ahead of it, the search for the midnight that begins a year whose
  -- first day comes after the epoch ends within its attempts, at that midnight and not with the
  -- fallback.
  pub zoned_midnight-first : zoned_midnight_to_utc z y 1 1 ≡ midnight
  unfolding zoned_midnight_to_utc
  zoned_midnight-first =
      let found : find_midnight z y 1 1 48 (z.date_utc y 1 1 12) ≡ some midnight =
        rw (fixed.date_utc y 12) (find_midnight-noon 44) in
      ground (arith, found)

-- A search that meets no clock at hour 0 ends with the fallback.
module _ (z : Zone) (y m d : ℕ)
    (never : (t : ℕ) → is_midnight_of y m d (z.wall_clock t) ≡ false) where
  find_midnight-none : (n t : ℕ) → find_midnight z y m d n t ≡ none
  unfolding find_midnight
  find_midnight-none zero t = refl
  find_midnight-none (suc n) t =
      rw (never t) (find_midnight-none n (t - step_back (z.wall_clock t)))

  zoned_midnight-fallback : zoned_midnight_to_utc z y m d ≡ z.date_utc y m d 0
  unfolding zoned_midnight_to_utc
  zoned_midnight-fallback =
      let missed = find_midnight-none 48 (z.date_utc y m d 12) in ground (arith, missed)

-- In a zone whose formatter writes midnight as an hour other than 0, such as 24, the range of a
-- year is that of UTC, whatever the offset of the zone.
pub budget_year_range-without_hour_0 :
    (z : Zone) (year : ℕ)
    → ((t : ℕ) → 0 < (z.wall_clock t).hour)
    → budget_year_range_in_time_zone z year
      ≡ record { start = z.date_utc year 1 1 0; stop = z.date_utc (suc year) 1 1 0 }
unfolding budget_year_range_in_time_zone
budget_year_range-without_hour_0 z year h =
    let first = zoned_midnight-fallback z year 1 1 (λ t. ground (arith, h t)) in
    let last = zoned_midnight-fallback z (suc year) 1 1 (λ t. ground (arith, h t)) in
    cc (first, last)
