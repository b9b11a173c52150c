-- ===== src/Gui/Calendar/Months.antt =====
-- The days of a year that is counted from March: how `civil_from_days` splits them into months.
use lecoo_control_center.Base.{
  ℕ, ◌+◌, ◌-◌, ◌*◌, ◌/◌, ◌<◌, ◌≤◌, ◌≡◌, refl, sym, ◌∙◌, Bool, true, false, ◌⊎◌, inl, inr, ltb, leb,
  if◌then◌else◌, arith,
}
use lecoo_control_center.Gui.Calendar.{Civil, month_length, after}

-- The date of a day of a year that is counted from March.
abbrev pub date : ℕ → ℕ → Civil
date y doy =
    let mp = (5 * doy + 2) / 153 in
    let m = if ltb mp 10 then mp + 3 else mp - 9 in
    record { year = if leb m 2 then y + 1 else y; month = m; day = doy - (153 * mp + 2) / 5 + 1 }

abbrev pub year_length : Bool → ℕ
year_length leap = if leap then 366 else 365

abbrev mp : ℕ → ℕ
mp doy = (5 * doy + 2) / 153

abbrev month : ℕ → ℕ
month p = if ltb p 10 then p + 3 else p - 9

abbrev day : ℕ → ℕ
day doy = doy - (153 * mp doy + 2) / 5 + 1

length_of :
    (leap : Bool) (p : ℕ)
    → p ≤ 10
    → month_length leap (month p) ≡ (153 * (p + 1) + 2) / 5 - (153 * p + 2) / 5
length_of leap p q = ground arith

feb : (doy : ℕ) → doy ≤ 365 → mp doy ≡ 11 → day doy + 336 ≡ doy
feb doy p q = omega arith

stays_or_turns :
    (doy : ℕ)
    → doy + 1 ≤ 365
    → ((mp (doy + 1) ≡ mp doy)
        × (day (doy + 1) ≡ day doy + 1)
        × (day doy < (153 * (mp doy + 1) + 2) / 5 - (153 * mp doy + 2) / 5))
      ⊎ ((mp (doy + 1) ≡ mp doy + 1)
          × (day (doy + 1) ≡ 1)
          × (day doy ≡ (153 * (mp doy + 1) + 2) / 5 - (153 * mp doy + 2) / 5))
stays_or_turns doy p = ground arith

mp_bound : (doy : ℕ) → doy ≤ 365 → mp doy ≤ 11
mp_bound doy p = omega arith

abbrev of_parts : ℕ → ℕ → ℕ → Civil
of_parts y p d = record { year = if leb (month p) 2 then y + 1 else y; month = month p; day = d }

stays :
    (leap : ℕ → Bool) (y p d : ℕ)
    → d < month_length (leap (of_parts y p d).year) (month p)
    → after leap (of_parts y p d) ≡ of_parts y p (d + 1)
stays leap y p d lt = ground arith

turns :
    (leap : ℕ → Bool) (y p d : ℕ)
    → p ≤ 10
    → d ≡ month_length (leap (of_parts y p d).year) (month p)
    → after leap (of_parts y p d) ≡ of_parts y (p + 1) 1
turns leap y p d q e = ground arith

new_year :
    (leap : ℕ → Bool) (y d : ℕ)
    → d ≡ month_length (leap (y + 1)) 2
    → after leap (of_parts y 11 d) ≡ of_parts (y + 1) 0 1
new_year leap y d e = ground arith

abbrev gap : ℕ → ℕ
gap p = (153 * (p + 1) + 2) / 5 - (153 * p + 2) / 5

stays_at :
    (leap : ℕ → Bool) (y p d p' d' : ℕ)
    → p' ≡ p
    → d' ≡ d + 1
    → d < month_length (leap (of_parts y p d).year) (month p)
    → after leap (of_parts y p d) ≡ of_parts y p' d'
stays_at leap y p d p' d' e f lt = rw (e, f) (stays leap y p d lt)

turns_at :
    (leap : ℕ → Bool) (y p d p' d' : ℕ)
    → p' ≤ 11
    → p' ≡ p + 1
    → d' ≡ 1
    → d ≡ gap p
    → after leap (of_parts y p d) ≡ of_parts y p' d'
turns_at leap y p d p' d' b e f g =
    let q : p ≤ 10 = omega arith in rw (e, f) (turns leap y p d q (g ∙ sym (length_of _ p q)))

fits :
    (leap : ℕ → Bool) (y p d doy : ℕ)
    → p ≤ 11
    → d < gap p
    → (p ≡ 11 → d + 336 ≡ doy)
    → doy + 1 < year_length (leap (y + 1))
    → d < month_length (leap (of_parts y p d).year) (month p)
fits leap y p d doy q lt feb_day short = elim (split p q) [
  | inl r ↦ let e = length_of (leap (of_parts y p d).year) p r in omega arith
  | inr r ↦ let e = feb_day r in rw r (february (leap (y + 1)) e short)
]
  where
    split : (p : ℕ) → p ≤ 11 → (p ≤ 10) ⊎ (p ≡ 11)
    split p q = ground arith

    february : (b : Bool) → d + 336 ≡ doy → doy + 1 < year_length b → d < month_length b 2
    february b e s = ground arith

-- Within the year, and at its end.
pub within_year :
    (leap : ℕ → Bool) (y doy : ℕ)
    → doy + 1 < year_length (leap (y + 1))
    → after leap (date y doy) ≡ date y (doy + 1)
within_year leap y doy lt =
    let last = short (leap (y + 1)) lt in
    elim (stays_or_turns doy last) [
      | inl s ↦ stays_at leap y (mp doy) (day doy) _ _ s.0 s.1 (
          fits leap y (mp doy) (day doy) doy (mp_bound doy (omega arith)) s.2
            (feb doy (omega arith)) lt)
      | inr t ↦ turns_at leap y (mp doy) (day doy) _ _ (mp_bound (doy + 1) last) t.0 t.1 t.2
    ]
  where
    short : (b : Bool) → doy + 1 < year_length b → doy + 1 ≤ 365
    short b p = ground arith

pub year_end :
    (leap : ℕ → Bool) (y doy : ℕ)
    → doy + 1 ≡ year_length (leap (y + 1))
    → after leap (date y doy) ≡ date (y + 1) 0
year_end leap y doy e = last (leap (y + 1)) refl e
  where
    last :
        (b : Bool)
        → leap (y + 1) ≡ b
        → doy + 1 ≡ year_length b
        → after leap (date y doy) ≡ date (y + 1) 0
    last true f g = let h : doy ≡ 365 = omega arith in rw h (new_year leap y 29 (simp f))
    last false f g = let h : doy ≡ 364 = omega arith in rw h (new_year leap y 28 (simp f))
