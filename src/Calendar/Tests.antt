-- ===== src/Calendar/Tests.antt =====
-- The theorem on dates of solomon-core/src/iso8583.rs at the last day of a February.
use project_solomon.Prelude.{◌≡◌, arith}
use project_solomon.Calendar.{days_to_ymd, ymd_to_days}
use project_solomon.Calendar.Dates.{days_to_ymd-ymd_to_days, is_leap, month_length}

days_to_ymd-ymd_to_days_example : days_to_ymd (ymd_to_days 2024 2 29) ≡ (2024, 2, 29)
unfolding is_leap month_length
days_to_ymd-ymd_to_days_example =
    days_to_ymd-ymd_to_days 2024 2 29 (omega arith) (omega arith) (omega arith) (omega arith)
      (omega arith) (omega arith)
