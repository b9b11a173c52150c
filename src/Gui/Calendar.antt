-- ===== src/Gui/Calendar.antt =====
-- The date in the name of the log file: `chrono_today` and `civil_from_days` (gui/src/logging.rs).
-- Days are counted from 1970-01-01 and are never negative, so the `i64` is a natural number; the year
-- is cast to an `i32` at the end.
pub mod Months
pub mod Years
pub mod NextDay
use lecoo_control_center.Base.{
  ℕ, zero, suc, Option, none, some, ◌∷◌, ◌++◌, ◌+◌, ◌-◌, ◌*◌, ◌/◌, ◌%◌, ◌^◌, Bool, not, ◌&&◌, ◌||◌,
  ltb, leb, ◌==◌, if◌then◌else◌,
}
use lecoo_control_center.Base.Text.{Text, codes, decimal}
use lecoo_control_center.Base.Lists.{length}

pub record Civil : Type 0 where
  pub year : ℕ
  pub month : ℕ
  pub day : ℕ

-- The year of the era, counted from March, of a day of the era.
abbrev pub year_of_era : ℕ → ℕ
year_of_era doe = (doe - doe / 1460 + doe / 36524 - doe / 146096) / 365

-- An integer of the machine, a number or `-1` and below.
pub data ℤ : Type 0 where
  pos negsuc : ℕ → ℤ

-- `as i32`: the low 32 bits, read as a signed number.
abbrev pub as_i32 : ℕ → ℤ
as_i32 n = let m = n % 2 ^ 32 in if ltb m (2 ^ 31) then ℤ.pos m else ℤ.negsuc (2 ^ 32 - 1 - m)

pub record Date : Type 0 where
  pub year : ℤ
  pub month : ℕ
  pub day : ℕ

abbrev pub cast : Civil → Date
cast civil = record { year = as_i32 civil.year; month = civil.month; day = civil.day }

-- The body of `civil_from_days`, for an era and a day of the era, up to the cast of the year.
unfoldable pub wide_civil : ℕ → ℕ → Civil
wide_civil era doe =
    let yoe = year_of_era doe in
    let y = yoe + era * 400 in
    let doy = doe - (365 * yoe + yoe / 4 - yoe / 100) in
    let mp = (5 * doy + 2) / 153 in
    let d = doy - (153 * mp + 2) / 5 + 1 in
    let m = if ltb mp 10 then mp + 3 else mp - 9 in
    record { year = if leb m 2 then y + 1 else y; month = m; day = d }

abbrev pub civil_in_era : ℕ → ℕ → Date
civil_in_era era doe = cast (wide_civil era doe)

unfoldable pub civil_from_days : ℕ → Date
civil_from_days days = let z = days + 719468 in civil_in_era (z / 146097) (z % 146097)

-- `{:04}` and `{:02}`: zeros in front of the decimal digits, up to a width.
abbrev pub zeros_onto : ℕ → Text → Text
zeros_onto zero t = t
zeros_onto (suc n) t = 48 ∷ zeros_onto n t

abbrev pub padded : ℕ → ℕ → Text
padded width n = zeros_onto (width - length (decimal n)) (decimal n)

-- The width counts the sign.
abbrev pub signed_padded : ℕ → ℤ → Text
signed_padded width (ℤ.pos n) = padded width n
signed_padded width (ℤ.negsuc n) = 45 ∷ padded (width - 1) (suc n)

abbrev pub or_epoch : Option ℕ → ℕ
or_epoch none = 0
or_epoch (some secs) = secs

-- The date of the clock, which counts seconds from the epoch; `none` for a clock before it.
unfoldable pub chrono_today : Option ℕ → Text
chrono_today clock =
    let civil = civil_from_days (or_epoch clock / 86400) in
    signed_padded 4 civil.year
    ++ (codes "-" ++ (padded 2 civil.month ++ (codes "-" ++ padded 2 civil.day)))

-- The calendar's own rules: the years of 366 days, the length of a month and the day after a date.
abbrev pub is_leap : ℕ → Bool
is_leap y = (y % 4 == 0) && (not (y % 100 == 0) || (y % 400 == 0))

abbrev pub month_length : Bool → ℕ → ℕ
month_length leap m =
    if m == 2
    then (if leap then 29 else 28)
    else if (m == 4) || ((m == 6) || ((m == 9) || (m == 11)))
    then 30
    else 31

abbrev pub after : (ℕ → Bool) → Civil → Civil
after leap t =
    if ltb t.day (month_length (leap t.year) t.month)
    then record t { day = t.day + 1 }
    else if ltb t.month 12
    then record { year = t.year; month = t.month + 1; day = 1 }
    else record { year = t.year + 1; month = 1; day = 1 }

-- The date so many days after 1970-01-01, counted day by day.
unfoldable pub nth_day : ℕ → Civil
nth_day zero = record { year = 1970; month = 1; day = 1 }
nth_day (suc n) = after is_leap (nth_day n)
