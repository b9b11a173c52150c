-- ===== src/Gui/Calendar/Years.antt =====
-- The years of an era of 400 years, counted from March.
use lecoo_control_center.Base.{ℕ, ◌+◌, ◌-◌, ◌*◌, ◌/◌, ◌<◌, ◌≤◌, ◌≡◌, refl, ◌⊎◌, inl, inr, arith}
use lecoo_control_center.Gui.Calendar.{year_of_era, is_leap}
use lecoo_control_center.Gui.Calendar.Months.{year_length}

abbrev pub start : ℕ → ℕ
start y = 365 * y + y / 4 - y / 100

below : (doe : ℕ) → doe < 146097 → start (year_of_era doe) ≤ doe
below doe p = omega arith

above : (doe : ℕ) → doe < 146096 → doe < start (year_of_era doe + 1)
above doe p = omega arith

pub year_bound : (doe : ℕ) → doe < 146097 → year_of_era doe < 400
year_bound doe p = omega arith

unique :
    (doe y : ℕ) → doe < 146097 → y < 400 → start y ≤ doe → doe < start (y + 1) → year_of_era doe ≡ y
unique doe y p q a b = omega arith

leap_length :
    (era y : ℕ) → y < 399 → year_length (is_leap (y + era * 400 + 1)) ≡ start (y + 1) - start y
leap_length era y p = ground arith

pub leap_last : (era : ℕ) → year_length (is_leap (399 + era * 400 + 1)) ≡ 366
leap_last era = ground arith

-- The day of the year.
abbrev pub day_of_year : ℕ → ℕ
day_of_year doe = doe - start (year_of_era doe)

same_year :
    (doe y y' len : ℕ)
    → y' ≡ y
    → start y ≤ doe
    → doe + 1 < start y + len
    → (y' ≡ y) × (doe + 1 - start y' ≡ doe - start y + 1) × (doe - start y + 1 < len)
same_year doe y y' len e low high = rw e (refl, omega arith, omega arith)

next_year :
    (doe y y' len : ℕ)
    → y' ≡ y + 1
    → start y ≤ doe
    → doe + 1 ≡ start (y + 1)
    → len ≡ start (y + 1) - start y
    → (y' ≡ y + 1) × (doe + 1 - start y' ≡ 0) × (doe - start y + 1 ≡ len)
next_year doe y y' len e low high long = rw e (refl, omega arith, omega arith)

last_year : (doe : ℕ) → 145731 ≤ doe → doe < 146097 → year_of_era doe ≡ 399
last_year doe p q = omega arith

-- The day after is the next one of the year, or the first one of the next year.
abbrev pub IsStepped : ℕ → ℕ → ℕ → ℕ → Type 0
IsStepped doe y y' len =
    ((y' ≡ y) × (doe + 1 - start y' ≡ doe - start y + 1) × (doe - start y + 1 < len))
    ⊎ ((y' ≡ y + 1) × (doe + 1 - start y' ≡ 0) × (doe - start y + 1 ≡ len))

pub year_step :
    (era doe : ℕ)
    → doe + 1 < 146097
    → IsStepped doe
        (year_of_era doe)
        (year_of_era (doe + 1))
        (year_length (is_leap (year_of_era doe + era * 400 + 1)))
year_step era doe p = elim (split (year_of_era doe) (year_bound doe (omega arith))) [
  | inl q ↦
      within (year_of_era doe) q (below doe (omega arith)) (above doe (omega arith))
        (leap_length era (year_of_era doe) q)
  | inr q ↦ at_end (year_of_era doe) q (below doe (omega arith))
]
  where
    split : (y : ℕ) → y < 400 → (y < 399) ⊎ (y ≡ 399)
    split y q = ground arith

    reaches : (y : ℕ) → doe < start (y + 1) → (doe + 1 < start (y + 1)) ⊎ (doe + 1 ≡ start (y + 1))
    reaches y q = ground arith

    within :
        (y : ℕ)
        → y < 399
        → start y ≤ doe
        → doe < start (y + 1)
        → year_length (is_leap (y + era * 400 + 1)) ≡ start (y + 1) - start y
        → IsStepped doe y (year_of_era (doe + 1)) (year_length (is_leap (y + era * 400 + 1)))
    within y q low high len = elim (reaches y high) [
      | inl r ↦ inl (
          same_year doe y _ _ (unique (doe + 1) y p (omega arith) (omega arith) r) low
            (rw len (omega arith)))
      | inr r ↦ inr (
          next_year doe y _ _ (unique (doe + 1) (y + 1) p (omega arith) (omega arith) (omega arith))
            low r len)
    ]

    at_end :
        (y : ℕ)
        → y ≡ 399
        → start y ≤ doe
        → IsStepped doe y (year_of_era (doe + 1)) (year_length (is_leap (y + era * 400 + 1)))
    at_end y q low = rw q (
        inl (
          same_year doe 399 _ _ (last_year (doe + 1) (omega arith) p) (omega arith)
            (rw (leap_last era) (omega arith))))
