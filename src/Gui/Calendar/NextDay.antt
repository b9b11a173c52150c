-- ===== src/Gui/Calendar/NextDay.antt =====
-- The date of the log file is that of the calendar.
use lecoo_control_center.Base.{
  ℕ, zero, suc, ◌≤◌, ◌^◌, Bool, true, false, if◌then◌else◌, ◌+◌, ◌-◌, ◌*◌, ◌/◌, ◌%◌, ◌<◌, ◌≡◌, refl,
  sym, ap, ◌∙◌, ◌⊎◌, inl, inr, arith,
}
use lecoo_control_center.Gui.Calendar.{
  ℤ, Civil, year_of_era, wide_civil, civil_from_days, cast, nth_day, is_leap, after,
}
use lecoo_control_center.Gui.Calendar.Months.{date, within_year, year_end}
use lecoo_control_center.Gui.Calendar.Years.{start, year_bound, year_step, leap_last}

same_date : (y y' d d' : ℕ) → y ≡ y' → d ≡ d' → date y d ≡ date y' d'
same_date y y' d d' e f = ap (λ n. date n d) e ∙ ap (λ n. date y' n) f

-- The day of the year.
abbrev day_of_year : ℕ → ℕ
day_of_year doe = doe - start (year_of_era doe)

in_era :
    (era doe : ℕ) → doe + 1 < 146097 → wide_civil era (doe + 1) ≡ after is_leap (wide_civil era doe)
unfolding wide_civil
in_era era doe p =
    let y = year_of_era doe + era * 400 in
    elim (year_step era doe p) [
      | inl s ↦
          same_date _ _ _ _ (ap (λ n. n + era * 400) s.0) s.1
          ∙ sym (within_year is_leap y (day_of_year doe) s.2)
      | inr s ↦
          same_date _ _ _ _ (ap (λ n. n + era * 400) s.0 ∙ next_year (year_of_era doe) (era * 400))
            s.1
          ∙ sym (year_end is_leap y (day_of_year doe) s.2)
    ]
  where
    next_year : (y e : ℕ) → y + 1 + e ≡ y + e + 1
    next_year y e = omega arith

next_era : (era : ℕ) → wide_civil (era + 1) 0 ≡ after is_leap (wide_civil era 146096)
unfolding wide_civil
next_era era =
    let same : 0 + (era + 1) * 400 ≡ 399 + era * 400 + 1 = omega arith in
    ap (λ y. date y 0) same ∙ sym (year_end is_leap (399 + era * 400) 365 (sym (leap_last era)))

era_step :
    (z : ℕ)
    → wide_civil ((z + 1) / 146097) ((z + 1) % 146097)
      ≡ after is_leap (wide_civil (z / 146097) (z % 146097))
era_step z = elim (split (z % 146097) (omega arith)) [
  | inl q ↦
      let e : (z + 1) / 146097 ≡ z / 146097 = omega arith in
      let r : (z + 1) % 146097 ≡ z % 146097 + 1 = omega arith in
      rw (e, r) (in_era (z / 146097) (z % 146097) q)
  | inr q ↦
      let e : (z + 1) / 146097 ≡ z / 146097 + 1 = omega arith in
      let r : (z + 1) % 146097 ≡ 0 = omega arith in rw (e, r, q) (next_era (z / 146097))
]
  where
    split : (d : ℕ) → d < 146097 → (d + 1 < 146097) ⊎ (d ≡ 146096)
    split d q = ground arith

abbrev wide : ℕ → Civil
wide n = wide_civil ((n + 719468) / 146097) ((n + 719468) % 146097)

wide_step : (n : ℕ) → wide (n + 1) ≡ after is_leap (wide n)
wide_step n = ap (λ z. wide_civil (z / 146097) (z % 146097)) moved ∙ era_step (n + 719468)
  where
    moved : n + 1 + 719468 ≡ n + 719468 + 1
    moved = omega arith

counted : (n : ℕ) → wide n ≡ nth_day n
unfolding wide_civil nth_day
counted zero = refl
counted (suc n) = ap wide next ∙ wide_step n ∙ ap (after is_leap) (counted n)
  where
    next : suc n ≡ n + 1
    next = omega arith

-- Up to this day, the year fits.
year_fits : (n : ℕ) → n < 784000000000 → (wide n).year < 2 ^ 31
unfolding wide_civil
year_fits n p =
    let era : (n + 719468) / 146097 ≤ 5366303 = omega arith in
    in_range ((n + 719468) / 146097) (year_of_era ((n + 719468) % 146097)) _ era
      (year_bound ((n + 719468) % 146097) (omega arith))
  where
    in_range :
        (era yoe : ℕ) (b : Bool)
        → era ≤ 5366303
        → yoe < 400
        → (if b then yoe + era * 400 + 1 else yoe + era * 400) < 2 ^ 31
    in_range era yoe true p q = omega arith
    in_range era yoe false p q = omega arith

cast-fits : (c : Civil) → c.year < 2 ^ 31 → (cast c).year ≡ ℤ.pos c.year
cast-fits c p = ground arith

-- For each of the first 784,000,000,000 days, which is up to a year beyond 2,146,000,000: the date of
-- a day is the one that counting day by day from 1970-01-01 in the Gregorian calendar comes to.
pub civil_from_days_follows :
    (n : ℕ)
    → n < 784000000000
    → civil_from_days n
      ≡ record { year = ℤ.pos (nth_day n).year; month = (nth_day n).month; day = (nth_day n).day }
unfolding civil_from_days
civil_from_days_follows n p =
    ap (λ y. record { year = y; month = (wide n).month; day = (wide n).day })
      (cast-fits (wide n) (year_fits n p))
    ∙ ap (λ c. record { year = ℤ.pos c.year; month = c.month; day = c.day }) (counted n)
