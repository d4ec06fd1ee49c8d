-- ===== src/Calendar.antt =====
-- The Gregorian dates of solomon-core/src/iso8583.rs (`days_to_ymd` stands in audit/logger.rs too).
-- Sums, differences and products of u64 wrap, as they do in a release build, wherever an argument can
-- take them out of range.
pub mod Dates
mod Tests
use project_solomon.Prelude.{ℕ, ◌+◌, ◌-◌, ◌*◌, ◌/◌, ◌%◌, ◌^◌, ltb, leb, if◌then◌else◌}

abbrev pub Date : Type 0
Date = ℕ × ℕ × ℕ

-- The operations of u64 in a release build.
abbrev pub wrapping_add : ℕ → ℕ → ℕ
wrapping_add a b = (a + b) % 2 ^ 64

abbrev pub wrapping_sub : ℕ → ℕ → ℕ
wrapping_sub a b = (a + (2 ^ 64 - b)) % 2 ^ 64

abbrev pub wrapping_mul : ℕ → ℕ → ℕ
wrapping_mul a b = a * b % 2 ^ 64

-- The year of the era, from the day of the era.
unfoldable pub year_of_era : ℕ → ℕ
year_of_era doe = (doe - doe / 1460 + doe / 36524 - doe / 146096) / 365

-- Day of the era, and era, to a date whose year begins in March inside.
unfoldable pub date_of : ℕ → ℕ → Date
unfolding year_of_era
date_of era doe =
    let yoe = year_of_era doe in
    let y = yoe + era * 400 in
    let doy = doe - (365 * yoe + yoe / 4 - yoe / 100) in
    let mp = (5 * doy + 2) / 153 in
    let d = doy - (153 * mp + 2) / 5 + 1 in
    let m = if ltb mp 10 then mp + 3 else mp - 9 in (if leb m 2 then y + 1 else y, m, d)

-- Days since 1970-01-01 to (year, month, day). Only the first sum can wrap: the era is at most
-- 2^64 / 146097, and the day of the era below 146097.
unfoldable pub days_to_ymd : ℕ → Date
unfolding date_of
days_to_ymd days = let z = wrapping_add days 719468 in date_of (z / 146097) (z % 146097)

unfoldable pub days_of_march_year : ℕ → ℕ → ℕ → ℕ
days_of_march_year y m day =
    let era = y / 400 in
    let yoe = y % 400 in
    let doy = wrapping_sub (wrapping_add (wrapping_add (wrapping_mul 153 m) 2 / 5) day) 1 in
    let doe = wrapping_add (yoe * 365 + yoe / 4 - yoe / 100) doy in
    wrapping_sub (wrapping_add (wrapping_mul era 146097) doe) 719468

-- (year, month, day) to days since 1970-01-01.
unfoldable pub ymd_to_days : ℕ → ℕ → ℕ → ℕ
unfolding days_of_march_year
ymd_to_days year month day =
    if leb month 2
    then days_of_march_year (wrapping_sub year 1) (month + 9) day
    else days_of_march_year year (month - 3) day
