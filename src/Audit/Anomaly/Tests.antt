-- ===== src/Audit/Anomaly/Tests.antt =====
-- The theorems on solomon-core/src/audit/anomaly.rs at a concrete detector.
use project_solomon.Prelude.{[], ◌∷◌, arith}
use project_solomon.Audit.Record.{fail_closed_bypassed}
use project_solomon.Audit.Anomaly.{AnomalyDetector, burst_failure, observe}
use project_solomon.Audit.Anomaly.Windows.{IsSmall, observe-IsSmall}

abbrev detector : AnomalyDetector
detector = record {
  failure_timestamps = 990 ∷ 995 ∷ [];
  route_timestamps = (b'R' ∷ [], 995 ∷ []) ∷ [];
  last_alert_times = (burst_failure, 100) ∷ [];
  alert_count = 1;
}

observe-IsSmall_example : IsSmall (observe fail_closed_bypassed (b'S' ∷ []) 1000 detector)
observe-IsSmall_example =
    observe-IsSmall fail_closed_bypassed (b'S' ∷ []) 1000 detector
      (record { failures = omega arith; routes = omega arith })
