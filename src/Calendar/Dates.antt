-- ===== src/Calendar/Dates.antt =====
-- Dates of solomon-core/src/iso8583.rs there and back.
use project_solomon.Prelude.{
  ℕ, ◌+◌, ◌-◌, ◌*◌, ◌/◌, ◌%◌, ◌^◌, ◌≤◌, ◌<◌, ◌≡◌, ap, ap₂, ◌∙◌, arith, ◌&&◌, ◌||◌,
}
use project_solomon.Prelude.{ltb, leb, ◌==◌, if◌then◌else◌, Bool, not, Bool-cases, inl, inr, ◌⊎◌}
use project_solomon.Calendar.{
  year_of_era, date_of, days_to_ymd, days_of_march_year, ymd_to_days, wrapping_add, wrapping_sub,
}

-- The Gregorian calendar.
unfoldable pub is_leap : ℕ → Bool
is_leap y = y % 4 == 0 && (not (y % 100 == 0) || y % 400 == 0)

unfoldable pub month_length : ℕ → ℕ → ℕ
unfolding is_leap
month_length y m =
    if m == 2
    then (if is_leap y then 29 else 28)
    else if m == 4 || (m == 6 || (m == 9 || m == 11))
    then 30
    else 31

-- The last day of a year that ends in February is in a leap year.
abbrev IsDayOf : ℕ → ℕ → Type 0
IsDayOf yoe doy =
    (doy < 365) ⊎ ((doy ≡ 365) × ((yoe + 1) % 4 ≡ 0) × (((yoe + 1) % 100 ≡ 0) → yoe ≡ 399))

abbrev day_of_era : ℕ → ℕ → ℕ
day_of_era yoe doy = yoe * 365 + yoe / 4 - yoe / 100 + doy

year_of_era-day :
    (yoe doy : ℕ) → yoe < 400 → IsDayOf yoe doy → year_of_era (day_of_era yoe doy) ≡ yoe
unfolding year_of_era
year_of_era-day yoe doy hy (inl h) = omega arith
year_of_era-day yoe doy hy (inr (h, four, hundred)) = grind arith

day_of_era-lt : (yoe doy : ℕ) → yoe < 400 → IsDayOf yoe doy → day_of_era yoe doy < 146097
day_of_era-lt yoe doy hy (inl h) = omega arith
day_of_era-lt yoe doy hy (inr (h, four, hundred)) = grind arith

-- The month and the day from the day of the year, for a month counted from March.
month_back :
    (m day : ℕ)
    → m ≤ 11
    → 1 ≤ day
    → (153 * m + 2) / 5 + day ≤ (153 * (m + 1) + 2) / 5
    → (5 * ((153 * m + 2) / 5 + day - 1) + 2) / 153 ≡ m
month_back m day h one le = omega arith

date_of-day :
    (era yoe m day : ℕ)
    → yoe < 400
    → m ≤ 11
    → 1 ≤ day
    → (153 * m + 2) / 5 + day ≤ (153 * (m + 1) + 2) / 5
    → IsDayOf yoe ((153 * m + 2) / 5 + day - 1)
    → date_of era (day_of_era yoe ((153 * m + 2) / 5 + day - 1))
      ≡ (if ltb m 10 then (yoe + era * 400, m + 3, day) else (yoe + era * 400 + 1, m - 9, day))
unfolding date_of
date_of-day era yoe m day hy hm one le h =
    rw (year_of_era-day yoe ((153 * m + 2) / 5 + day - 1) hy h)
      (ground (arith, month_back m day hm one le))

epoch-le :
    (y m day : ℕ)
    → (1970 ≤ y) ⊎ ((y ≡ 1969) × (10 ≤ m))
    → 1 ≤ day
    → 719468 ≤ y / 400 * 146097 + day_of_era (y % 400) ((153 * m + 2) / 5 + day - 1)
epoch-le y m day (inl h) one = omega arith
epoch-le y m day (inr (h, late)) one = omega arith

-- No step of the count wraps for a year below 2^55.
march_days :
    (y m day : ℕ)
    → y < 2 ^ 55
    → (1970 ≤ y) ⊎ ((y ≡ 1969) × (10 ≤ m))
    → m ≤ 11
    → 1 ≤ day
    → day ≤ 31
    → days_of_march_year y m day
      ≡ y / 400 * 146097 + day_of_era (y % 400) ((153 * m + 2) / 5 + day - 1) - 719468
unfolding days_of_march_year
march_days y m day top first hm one le =
    let enough : 719468 ≤ y / 400 * 146097 + day_of_era (y % 400) ((153 * m + 2) / 5 + day - 1) =
      epoch-le y m day first one in
    omega arith

-- From the days of a date whose year begins in March.
march-back :
    (y m day : ℕ)
    → y < 2 ^ 55
    → (1970 ≤ y) ⊎ ((y ≡ 1969) × (10 ≤ m))
    → m ≤ 11
    → 1 ≤ day
    → (153 * m + 2) / 5 + day ≤ (153 * (m + 1) + 2) / 5
    → IsDayOf (y % 400) ((153 * m + 2) / 5 + day - 1)
    → days_to_ymd (days_of_march_year y m day)
      ≡ (if ltb m 10 then (y, m + 3, day) else (y + 1, m - 9, day))
unfolding days_to_ymd
march-back y m day top first hm one le h =
    let doe : ℕ = day_of_era (y % 400) ((153 * m + 2) / 5 + day - 1) in
    let lt : doe < 146097 = day_of_era-lt (y % 400) _ (omega arith) h in
    let enough : 719468 ≤ y / 400 * 146097 + doe = epoch-le y m day first one in
    let days : days_of_march_year y m day ≡ y / 400 * 146097 + doe - 719468 =
      march_days y m day top first hm one (omega arith) in
    let z : wrapping_add (days_of_march_year y m day) 719468 ≡ y / 400 * 146097 + doe =
      omega (arith, days) in
    let era : (y / 400 * 146097 + doe) / 146097 ≡ y / 400 = omega arith in
    let rem : (y / 400 * 146097 + doe) % 146097 ≡ doe = omega arith in
    let year : y % 400 + y / 400 * 400 ≡ y = omega arith in
    ap (λ (t : ℕ). date_of (t / 146097) (t % 146097)) z
    ∙ ap₂ date_of era rem
    ∙ date_of-day (y / 400) (y % 400) m day (omega arith) hm one le h
    ∙ ap (λ (t : ℕ). if ltb m 10 then (t, m + 3, day) else (t + 1, m - 9, day)) year

start_of_epoch : (y m : ℕ) → 1970 ≤ y → 1 ≤ m → (1970 ≤ y - 1) ⊎ ((y - 1 ≡ 1969) × (10 ≤ m + 9))
start_of_epoch y m hy lo = elim (Bool-cases (y == 1970)) [
  | inl e ↦ inr (ground arith, omega arith)
  | inr e ↦ inl (ground arith)
]

-- January and February end the year before.
winter_day :
    (y m day : ℕ)
    → 1970 ≤ y
    → 1 ≤ m
    → m ≤ 2
    → day ≤ month_length y m
    → IsDayOf ((y - 1) % 400) ((153 * (m + 9) + 2) / 5 + day - 1)
unfolding month_length is_leap
winter_day y m day hy lo hi le = elim (Bool-cases (m == 2 && day == 29)) [
  | inl e ↦ inr (ground arith, ground arith, λ h. ground arith)
  | inr e ↦ inl (ground arith)
]

-- Every date of the Gregorian calendar from 1970-01-01 on, in a year below 2^55, is given back by
-- `days_to_ymd` from the number of days that `ymd_to_days` counts for it: no step wraps.
pub days_to_ymd-ymd_to_days :
    (y m day : ℕ)
    → 1970 ≤ y
    → y < 2 ^ 55
    → 1 ≤ m
    → m ≤ 12
    → 1 ≤ day
    → day ≤ month_length y m
    → days_to_ymd (ymd_to_days y m day) ≡ (y, m, day)
unfolding ymd_to_days month_length is_leap
days_to_ymd-ymd_to_days y m day hy top lo hi one le = elim (Bool-cases (leb m 2)) [
  | inl early ↦
      let before : wrapping_sub y 1 ≡ y - 1 = omega arith in
      rw (early, before)
        (march-back (y - 1) (m + 9) day (omega arith) (start_of_epoch y m hy lo) (ground arith) one
            (ground arith) (winter_day y m day hy lo (ground arith) le)
          ∙ ground arith)
  | inr late ↦ rw late (
      march-back y (m - 3) day top (inl hy) (ground arith) one (ground arith) (inl (ground arith))
      ∙ ground arith)
]
